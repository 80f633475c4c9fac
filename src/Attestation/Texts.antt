-- ===== src/Attestation/Texts.antt =====
-- JS strings in packages/attestation: a text is its code points, a lone surrogate counting as one.
-- The string methods and `Buffer` conversions that the verifiers use.
use Prim.Native.Char.{code}
use Prim.Native.String.{String}
use sdidfy.Prelude.{
  ℕ, ◌+◌, ◌/◌, ◌%◌, Bool, true, false, ◌&&◌, ◌||◌, Option, none, some, List, [], ◌∷◌, ◌++◌, ltb,
  leb, ◌==◌, if◌then◌else◌,
}
use sdidfy.Attestation.Utf8.{Utf8, utf8_start, utf8_byte, lead_byte}

abbrev pub Text : Type 0
Text = List ℕ

abbrev pub codes : String → Text
codes String.[] = []
codes (String.◌∷◌ c s) = code c ∷ codes s

-- `a === b`, and the comparison of the bytes of two buffers.
abbrev pub same_text : Text → Text → Bool
same_text [] [] = true
same_text [] (b ∷ bs) = false
same_text (a ∷ as') [] = false
same_text (a ∷ as') (b ∷ bs) = a == b && same_text as' bs

-- `texts.includes(a)`
abbrev pub includes_text : List Text → Text → Bool
includes_text [] a = false
includes_text (x ∷ xs) a = same_text x a || includes_text xs a

-- `s.length`, which counts UTF-16 code units.
unfoldable pub utf16_length : Text → ℕ
utf16_length [] = 0
utf16_length (p ∷ ps) = (if ltb p 0x10000 then 1 else 2) + utf16_length ps

-- `\s`, which is also what `trim` removes.
unfoldable pub is_space : ℕ → Bool
is_space p =
    (leb 0x09 p && leb p 0x0d)
    || p == 0x20
    || p == 0xa0
    || p == 0x1680
    || (leb 0x2000 p && leb p 0x200a)
    || p == 0x2028
    || p == 0x2029
    || p == 0x202f
    || p == 0x205f
    || p == 0x3000
    || p == 0xfeff

abbrev pub drop_spaces : Text → Text
drop_spaces [] = []
drop_spaces (p ∷ ps) = let rest = drop_spaces ps in if is_space p then rest else p ∷ ps

abbrev pub reversed : Text → Text → Text
reversed acc [] = acc
reversed acc (p ∷ ps) = reversed (p ∷ acc) ps

unfoldable pub trim : Text → Text
unfolding is_space
trim s = reversed [] (drop_spaces (reversed [] (drop_spaces s)))

-- `s.replace(/\s+/g, '')`
unfoldable pub without_spaces : Text → Text
unfolding is_space
without_spaces [] = []
without_spaces (p ∷ ps) = let rest = without_spaces ps in if is_space p then rest else p ∷ rest

-- The UTF-8 bytes of a code point; a lone surrogate is written as U+FFFD.
unfoldable pub utf8_of : ℕ → List ℕ
utf8_of p =
    if ltb p 0x80
    then p ∷ []
    else if ltb p 0x800
    then (0xc0 + p / 64) ∷ (0x80 + p % 64) ∷ []
    else if leb 0xd800 p && leb p 0xdfff
    then 0xef ∷ 0xbf ∷ 0xbd ∷ []
    else if ltb p 0x10000
    then (0xe0 + p / 4096) ∷ (0x80 + p / 64 % 64) ∷ (0x80 + p % 64) ∷ []
    else (0xf0 + p / 262144) ∷ (0x80 + p / 4096 % 64) ∷ (0x80 + p / 64 % 64) ∷ (0x80 + p % 64) ∷ []

-- `Buffer.from(s, 'utf8')`
unfoldable pub utf8_bytes : Text → List ℕ
unfolding utf8_of
utf8_bytes [] = []
utf8_bytes (p ∷ ps) = utf8_of p ++ utf8_bytes ps

-- The points that a byte completes where nothing is fatal, and the state after it: a byte that does
-- not continue what was begun is read again as a first byte.
abbrev pub replacing : Option (List ℕ × Utf8) → List ℕ × Utf8
replacing none = (0xfffd ∷ [], utf8_start)
replacing (some r) = r

abbrev pub retried : List ℕ × Utf8 → List ℕ × Utf8
retried (ps, s) = (0xfffd ∷ ps, s)

unfoldable pub lossy_byte : Utf8 → ℕ → List ℕ × Utf8
unfolding utf8_byte lead_byte
lossy_byte s b = elim (utf8_byte s b) [
  | some r ↦ r
  | none ↦ if s.needed == 0 then (0xfffd ∷ [], utf8_start) else retried (replacing (lead_byte b))
]

unfoldable pub lossy_points : Utf8 → List ℕ → Text
unfolding lossy_byte
lossy_points s [] = if s.needed == 0 then [] else 0xfffd ∷ []
lossy_points s (b ∷ bs) = let (ps, s') = lossy_byte s b in ps ++ lossy_points s' bs

-- `Buffer.from(bytes).toString('utf8')`
unfoldable pub utf8_text : List ℕ → Text
unfolding lossy_points
utf8_text bs = lossy_points utf8_start bs
