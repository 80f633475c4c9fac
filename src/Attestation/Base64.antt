-- ===== src/Attestation/Base64.antt =====
-- packages/attestation/src/common.ts: the strict decoders of base64 and base64url, with the encoding
-- of the standard library that they compare against.
pub mod RoundTrip
use sdidfy.Prelude.{
  ℕ, ◌+◌, ◌-◌, ◌*◌, ◌/◌, ◌%◌, Bool, true, false, not, ◌&&◌, ◌||◌, Option, none, some, List, [], ◌∷◌,
  ◌++◌, map, ltb, leb, ◌==◌, if◌then◌else◌, length, Result, ok, err, ◌>>=◌, ◌>>◌, throw_if,
}
use sdidfy.Attestation.Texts.{Text, same_text}

-- Why an input is malformed: one constructor to a message of the source.
pub data MalformedInput : Type 0 where
  not_strict_base64 non_canonical_base64 not_strict_base64url non_canonical_base64url :
      MalformedInput
  unsupported_key bad_coordinate_length : MalformedInput
  chain_too_large chain_empty chain_not_json chain_not_strings unterminated_pem : MalformedInput
  too_many_certificates certificate_too_large unreadable_certificate : MalformedInput

-- The two characters in which the alphabets differ.
pub record Alphabet : Type 0 where
  pub char_62 : ℕ
  pub char_63 : ℕ

abbrev pub standard : Alphabet
standard = record { char_62 = b'+'; char_63 = b'/' }

abbrev pub url_safe : Alphabet
url_safe = record { char_62 = b'-'; char_63 = b'_' }

unfoldable pub sextet_of : Alphabet → ℕ → Option ℕ
sextet_of a c =
    if leb b'A' c && leb c b'Z'
    then some (c - 65)
    else if leb b'a' c && leb c b'z'
    then some (c - 71)
    else if leb b'0' c && leb c b'9'
    then some (c + 4)
    else if c == a.char_62
    then some 62
    else if c == a.char_63
    then some 63
    else none

unfoldable pub char_of : Alphabet → ℕ → ℕ
char_of a d =
    if ltb d 26
    then d + 65
    else if ltb d 52
    then d + 71
    else if ltb d 62
    then d - 4
    else if d == 62
    then a.char_62
    else a.char_63

-- The longest run of characters of the alphabet, as what they stand for, and the rest.
unfoldable pub sextets : Alphabet → Text → List ℕ × Text
unfolding sextet_of
sextets a [] = ([], [])
sextets a (c ∷ cs) = elim (sextet_of a c) [
  | none ↦ ([], c ∷ cs)
  | some d ↦ (d ∷ (sextets a cs).0, (sextets a cs).1)
]

-- `Buffer.from(s, 'base64')` on characters of the alphabet: bits beyond the last whole byte are lost.
unfoldable pub from_sextets : List ℕ → List ℕ
from_sextets (a ∷ b ∷ c ∷ d ∷ rest) =
    (a * 4 + b / 16) ∷ (b % 16 * 16 + c / 4) ∷ (c % 4 * 64 + d) ∷ from_sextets rest
from_sextets (a ∷ b ∷ c ∷ []) = (a * 4 + b / 16) ∷ (b % 16 * 16 + c / 4) ∷ []
from_sextets (a ∷ b ∷ []) = (a * 4 + b / 16) ∷ []
from_sextets (a ∷ []) = []
from_sextets [] = []

unfoldable pub to_sextets : List ℕ → List ℕ
to_sextets (x ∷ y ∷ z ∷ rest) =
    (x / 4) ∷ (x % 4 * 16 + y / 16) ∷ (y % 16 * 4 + z / 64) ∷ (z % 64) ∷ to_sextets rest
to_sextets (x ∷ y ∷ []) = (x / 4) ∷ (x % 4 * 16 + y / 16) ∷ (y % 16 * 4) ∷ []
to_sextets (x ∷ []) = (x / 4) ∷ (x % 4 * 16) ∷ []
to_sextets [] = []

unfoldable pub padding : List ℕ → Text
padding (x ∷ y ∷ z ∷ rest) = padding rest
padding (x ∷ y ∷ []) = b'=' ∷ []
padding (x ∷ []) = b'=' ∷ b'=' ∷ []
padding [] = []

-- `buffer.toString('base64')` and `buffer.toString('base64url')`
unfoldable pub base64_text : List ℕ → Text
unfolding to_sextets char_of padding
base64_text bytes = map (char_of standard) (to_sextets bytes) ++ padding bytes

unfoldable pub base64url_text : List ℕ → Text
unfolding to_sextets char_of
base64url_text bytes = map (char_of url_safe) (to_sextets bytes)

abbrev pub is_blank : List ℕ → Bool
is_blank [] = true
is_blank (d ∷ ds) = false

abbrev pub is_padding : Text → Bool
is_padding s = is_blank s || same_text s (b'=' ∷ []) || same_text s (b'=' ∷ b'=' ∷ [])

-- `BASE64_RE.test(input)` and `BASE64URL_RE.test(input)`, on what `sextets` has split.
abbrev pub is_base64 : List ℕ × Text → Bool
is_base64 (ds, rest) = not (is_blank ds) && is_padding rest

abbrev pub is_base64url : List ℕ × Text → Bool
is_base64url (ds, rest) = not (is_blank ds) && is_blank rest

unfoldable pub decode_base64_strict : Text → Result MalformedInput (List ℕ)
decode_base64_strict input = do
  throw_if
      (length input == 0 || not (length input % 4 == 0) || not (is_base64 (sextets standard input)))
      not_strict_base64
  let decoded = from_sextets (sextets standard input).0
  throw_if (not (same_text (base64_text decoded) input)) non_canonical_base64
  ok decoded

unfoldable pub decode_base64url_strict : Text → Result MalformedInput (List ℕ)
decode_base64url_strict input = do
  throw_if
      (length input == 0 || length input % 4 == 1 || not (is_base64url (sextets url_safe input)))
      not_strict_base64url
  let decoded = from_sextets (sextets url_safe input).0
  throw_if (not (same_text (base64url_text decoded) input)) non_canonical_base64url
  ok decoded
