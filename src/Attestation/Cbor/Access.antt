-- ===== src/Attestation/Cbor/Access.antt =====
-- packages/attestation/src/cbor.ts: the typed accessors, and what they make of the byte order mark.
use mathlib.Core.List.{append-nil}
use sdidfy.Prelude.{
  ℕ, suc, ◌+◌, ◌/◌, ◌%◌, ◌≤◌, ◌<◌, ◌≡◌, refl, sym, ap, ◌∙◌, true, some, List, [], ◌∷◌, arith,
  length, lt→ltb, le→ltb, if◌then◌else◌, ok, err, take, drop, take_prefix, drop_prefix,
}
use sdidfy.Prelude.Int.{ℤ, pos, negsuc}
use sdidfy.Attestation.Utf8.{utf8_points, utf8_start, decode_utf8, decode_utf8-bom, drop_bom}
use sdidfy.Attestation.Cbor.{
  Cbor, CborLimits, CborValue, number, text, bytes, array, map_value, CborValues, CborMap, is_safe,
  not_a_map, not_bytes, not_text, not_an_array, not_an_integer, argument, count_argument, raw_bytes,
  read_text_string, by_major, byte, read_value, decode_cbor,
}

unfoldable pub cbor_as_map : CborValue → Cbor CborMap
cbor_as_map (map_value m) = ok m
cbor_as_map _ = err not_a_map

unfoldable pub cbor_as_bytes : CborValue → Cbor (List ℕ)
cbor_as_bytes (bytes raw) = ok raw
cbor_as_bytes _ = err not_bytes

unfoldable pub cbor_as_text : CborValue → Cbor (List ℕ)
cbor_as_text (text points) = ok points
cbor_as_text _ = err not_text

unfoldable pub cbor_as_array : CborValue → Cbor CborValues
cbor_as_array (array vs) = ok vs
cbor_as_array _ = err not_an_array

-- -2^53 is a JS number that `Number.isSafeInteger` refuses.
unfoldable pub cbor_as_integer : CborValue → Cbor ℤ
cbor_as_integer (number (pos n)) = if is_safe n then ok (pos n) else err not_an_integer
cbor_as_integer (number (negsuc n)) = if is_safe (n + 1) then ok (negsuc n) else err not_an_integer
cbor_as_integer _ = err not_an_integer

-- A short text item.
text_item :
    (raw points : List ℕ) (limits : CborLimits)
    → length raw < 24
    → length raw + 1 ≤ limits.max_bytes
    → 1 ≤ limits.max_items
    → decode_utf8 raw ≡ some points
    → decode_cbor ((96 + length raw) ∷ raw) limits ≡ ok (text points)
unfolding decode_cbor read_value byte by_major read_text_string count_argument argument raw_bytes
text_item raw points limits short size few e =
    let n : ℕ = length raw in
    let whole : take n raw ≡ raw =
      ap (take {A = ℕ} n) (sym (append-nil raw)) ∙ take_prefix raw [] in
    let nothing : drop n raw ≡ [] =
      ap (drop {A = ℕ} n) (sym (append-nil raw)) ∙ drop_prefix raw [] in
    let major : (96 + n) / 32 ≡ 3 = omega arith in
    let ai : (96 + n) % 32 ≡ n = omega arith in
    let safe : is_safe n ≡ true = ground arith in
    rw
      (
        le→ltb limits.max_bytes (suc n) (omega arith),
        le→ltb limits.max_items 1 few,
        major,
        ai,
        lt→ltb n 24 short,
        safe,
        le→ltb n n (omega arith),
        whole,
        nothing,
        le→ltb n n (omega arith),
        e,
      )
      refl

-- One value has two encodings: a byte order mark in front of a text is accepted and dropped.
pub decode_cbor-bom :
    (raw points : List ℕ) (limits : CborLimits)
    → length raw < 21
    → length raw + 4 ≤ limits.max_bytes
    → 1 ≤ limits.max_items
    → utf8_points utf8_start raw ≡ some points
    → drop_bom points ≡ points
    → (decode_cbor ((96 + length raw) ∷ raw) limits ≡ ok (text points))
      × (decode_cbor ((96 + length raw + 3) ∷ 0xef ∷ 0xbb ∷ 0xbf ∷ raw) limits ≡ ok (text points))
decode_cbor-bom raw points limits short size few e plain =
    let (bare, marked) = decode_utf8-bom raw points e plain in
    let marked_raw : List ℕ = 0xef ∷ 0xbb ∷ 0xbf ∷ raw in
    (
      text_item raw points limits (omega arith) (omega arith) few bare,
      ap (λ (head : ℕ). decode_cbor (head ∷ marked_raw) limits) (omega arith)
          ∙ text_item marked_raw points limits (omega arith) (omega arith) few marked,
    )
