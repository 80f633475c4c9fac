-- ===== src/Attestation/Utf8.antt =====
-- `new TextDecoder('utf-8', { fatal: true })`, as cbor.ts uses it: the decoder of the WHATWG
-- Encoding Standard, which refuses ill-formed input and drops one leading byte order mark.
use sdidfy.Prelude.{
  ℕ, zero, suc, ◌+◌, ◌-◌, ◌*◌, ◌≡◌, refl, ap, ◌∙◌, Bool, ◌&&◌, Option, none, some, List, [], ◌∷◌,
  ◌++◌, ltb, leb, ◌==◌, if◌then◌else◌,
}

-- Bytes that are still needed, the code point so far, and the bounds of the next byte.
pub record Utf8 : Type 0 where
  pub needed : ℕ
  pub point : ℕ
  pub lower : ℕ
  pub upper : ℕ

abbrev pub utf8_start : Utf8
utf8_start = record { needed = 0; point = 0; lower = 0x80; upper = 0xbf }

abbrev within : ℕ → ℕ → ℕ → Bool
within lo hi b = leb lo b && leb b hi

abbrev lead : ℕ → ℕ → ℕ → ℕ → Option (List ℕ × Utf8)
lead needed point lower upper =
    some ([], record { needed = needed; point = point; lower = lower; upper = upper })

unfoldable pub lead_byte : ℕ → Option (List ℕ × Utf8)
lead_byte b =
    if ltb b 0x80
    then some (b ∷ [], utf8_start)
    else if within 0xc2 0xdf b
    then lead 1 (b - 0xc0) 0x80 0xbf
    else if within 0xe0 0xef b
    then lead 2 (b - 0xe0) (if b == 0xe0 then 0xa0 else 0x80) (if b == 0xed then 0x9f else 0xbf)
    else if within 0xf0 0xf4 b
    then lead 3 (b - 0xf0) (if b == 0xf0 then 0x90 else 0x80) (if b == 0xf4 then 0x8f else 0xbf)
    else none

-- The points that a byte completes, none or one, and the state after it; `none` is a fatal error.
unfoldable pub utf8_byte : Utf8 → ℕ → Option (List ℕ × Utf8)
unfolding lead_byte
utf8_byte s b = elim s.needed [
  | zero ↦ lead_byte b
  | suc more ↦
      if within s.lower s.upper b
      then (if more == 0
          then some ((s.point * 64 + (b - 0x80)) ∷ [], utf8_start)
          else some (
            [],
            record { needed = more; point = s.point * 64 + (b - 0x80); lower = 0x80; upper = 0xbf },
          ))
      else none
]

abbrev prepend : List ℕ → Option (List ℕ) → Option (List ℕ)
prepend ps none = none
prepend ps (some qs) = some (ps ++ qs)

unfoldable pub utf8_points : Utf8 → List ℕ → Option (List ℕ)
utf8_points s [] = if s.needed == 0 then some [] else none
utf8_points s (b ∷ bs) = elim (utf8_byte s b) [
  | none ↦ none
  | some (ps, s') ↦ prepend ps (utf8_points s' bs)
]

abbrev pub drop_bom : List ℕ → List ℕ
drop_bom [] = []
drop_bom (p ∷ ps) = if p == 0xfeff then ps else p ∷ ps

abbrev pub dropped : Option (List ℕ) → Option (List ℕ)
dropped none = none
dropped (some ps) = some (drop_bom ps)

unfoldable pub decode_utf8 : List ℕ → Option (List ℕ)
unfolding utf8_points utf8_byte
decode_utf8 bs = dropped (utf8_points utf8_start bs)

-- A mark is one point, and the points after it are those of the other bytes.
utf8_points-bom :
    (raw points : List ℕ)
    → utf8_points utf8_start raw ≡ some points
    → utf8_points utf8_start (0xef ∷ 0xbb ∷ 0xbf ∷ raw) ≡ some (0xfeff ∷ points)
unfolding utf8_points utf8_byte
utf8_points-bom raw points e = rw e refl

-- So a mark in front of well-formed bytes changes nothing, if they have none themselves.
pub decode_utf8-bom :
    (raw points : List ℕ)
    → utf8_points utf8_start raw ≡ some points
    → drop_bom points ≡ points
    → (decode_utf8 raw ≡ some points) × (decode_utf8 (0xef ∷ 0xbb ∷ 0xbf ∷ raw) ≡ some points)
decode_utf8-bom raw points e plain = (
  open_decode raw ∙ ap dropped e ∙ ap some plain,
  open_decode (0xef ∷ 0xbb ∷ 0xbf ∷ raw) ∙ ap dropped (utf8_points-bom raw points e),
)
  where
    open_decode : (bs : List ℕ) → decode_utf8 bs ≡ dropped (utf8_points utf8_start bs)
    open_decode bs = unfold decode_utf8 in refl
