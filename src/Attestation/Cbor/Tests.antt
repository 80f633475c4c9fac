-- ===== src/Attestation/Cbor/Tests.antt =====
-- Runs of packages/attestation/src/cbor.ts at concrete inputs.
use sdidfy.Prelude.{length, ◌+◌, ◌≤◌, ℕ, ◌≡◌, refl, List, [], ◌∷◌, All, ok, arith, some}
use sdidfy.Prelude.Int.{pos}
use sdidfy.Attestation.Digits.{IsByte}
use sdidfy.Attestation.Utf8.{
  decode_utf8, decode_utf8-bom, utf8_points, utf8_start, utf8_byte, lead_byte,
}
use sdidfy.Attestation.Cbor.{
  CborValue, number, map_value, entry, empty, number_key, decode_cbor, default_cbor_limits,
  read_value, by_major, read_map_item, read_unsigned, read_map, count_argument, argument,
  wide_argument, byte, raw_bytes, as_key, has_key, set_last, same_key,
}
use sdidfy.Attestation.Cbor.Encoding.{Encodes}
use sdidfy.Attestation.Cbor.Bounds.{depth, weight, IsDistinct}
use sdidfy.Attestation.Cbor.Sound.{decode_cbor-Encodes}

-- {1: 2}
abbrev pair : List ℕ
pair = 161 ∷ 1 ∷ 2 ∷ []

abbrev pair_value : CborValue
pair_value = map_value (entry (number_key (pos 1)) (number (pos 2)) empty)

pair-IsByte : All IsByte pair
pair-IsByte = (omega arith, (omega arith, (omega arith, tt)))

decode_pair : decode_cbor pair default_cbor_limits ≡ ok pair_value
unfolding decode_cbor read_value by_major read_map_item read_map read_unsigned count_argument
    argument wide_argument byte raw_bytes as_key has_key set_last same_key
decode_pair = refl

decode_cbor-Encodes_example :
    Encodes pair_value pair
    × IsDistinct pair_value
    × (length pair ≤ default_cbor_limits.max_bytes)
    × (depth pair_value ≤ default_cbor_limits.max_depth + 1)
    × (weight pair_value ≤ default_cbor_limits.max_items)
decode_cbor-Encodes_example =
    decode_cbor-Encodes pair default_cbor_limits pair_value pair-IsByte decode_pair

abbrev letters : List ℕ
letters = 97 ∷ 98 ∷ []

read_letters : utf8_points utf8_start letters ≡ some letters
unfolding utf8_points utf8_byte lead_byte
read_letters = refl

decode_utf8-bom_run :
    (decode_utf8 letters ≡ some letters)
    × (decode_utf8 (0xef ∷ 0xbb ∷ 0xbf ∷ letters) ≡ some letters)
decode_utf8-bom_run = decode_utf8-bom letters letters read_letters refl
