-- ===== src/Broker/Jose.antt =====
-- apps/broker/src/keys/key-custody.ts: the encoding of ECDSA signatures. The position in the buffer is
-- the list of the bytes that are left.
pub mod Converts
pub mod RoundTrip
use sdidfy.Prelude.{
  ℕ, zero, suc, ◌+◌, ◌-◌, ◌*◌, Bool, true, false, ◌&&◌, ◌||◌, List, [], ◌∷◌, ◌++◌, Result, ok, err,
  ◌>>=◌, ltb, ◌==◌, if◌then◌else◌, length, take, drop,
}

pub data SignatureError : Type 0 where
  missing_sequence_tag truncated_length unsupported_length_form length_mismatch : SignatureError
  missing_integer_tag truncated_integer_length unsupported_integer_length : SignatureError
  integer_overrun coordinate_too_wide trailing_bytes unknown_encoding wrong_shape : SignatureError

abbrev pub Decoded : Type 0 → Type 0
Decoded A = Result SignatureError A

-- The `ES256` entry.
abbrev pub coordinate_bytes : ℕ
coordinate_bytes = 32

abbrev pub sequence_tag : List ℕ → Decoded (List ℕ)
sequence_tag [] = err missing_sequence_tag
sequence_tag (t ∷ bs) = if t == 48 then ok bs else err missing_sequence_tag

abbrev pub one_octet : List ℕ → Decoded (ℕ × List ℕ)
one_octet [] = err truncated_length
one_octet (n ∷ bs) = ok (n, bs)

abbrev pub two_octets : List ℕ → Decoded (ℕ × List ℕ)
two_octets (hi ∷ lo ∷ bs) = ok (hi * 256 + lo, bs)
two_octets _ = err truncated_length

unfoldable pub sequence_length : List ℕ → Decoded (ℕ × List ℕ)
sequence_length [] = err truncated_length
sequence_length (n ∷ bs) =
    if n == 129
    then one_octet bs
    else if n == 130
    then two_octets bs
    else if ltb 130 n
    then err unsupported_length_form
    else ok (n, bs)

abbrev pub integer_content : List ℕ → Decoded (List ℕ × List ℕ)
integer_content [] = err truncated_integer_length
integer_content (n ∷ bs) =
    if n == 0 || ltb 127 n
    then err unsupported_integer_length
    else if ltb (length bs) n
    then err integer_overrun
    else ok (take n bs, drop n bs)

unfoldable pub read_integer : List ℕ → Decoded (List ℕ × List ℕ)
read_integer [] = err missing_integer_tag
read_integer (t ∷ bs) = if t == 2 then integer_content bs else err missing_integer_tag

-- Leading zero bytes go, but not the last byte.
unfoldable pub trimmed : List ℕ → List ℕ
trimmed [] = []
trimmed (b ∷ []) = b ∷ []
trimmed (b ∷ c ∷ bs) = let rest = trimmed (c ∷ bs) in if b == 0 then rest else b ∷ c ∷ bs

-- `new Uint8Array(n)`
abbrev pub zeros : ℕ → List ℕ
zeros zero = []
zeros (suc n) = 0 ∷ zeros n

abbrev pub left_padded : ℕ → List ℕ → Decoded (List ℕ)
left_padded width value =
    if ltb width (length value)
    then err coordinate_too_wide
    else ok (zeros (width - length value) ++ value)

unfoldable pub pad : ℕ → List ℕ → Decoded (List ℕ)
unfolding trimmed
pad width value = left_padded width (trimmed value)

abbrev pub all_read : List ℕ → List ℕ → Decoded (List ℕ)
all_read [] joined = ok joined
all_read (b ∷ bs) joined = err trailing_bytes

-- `readInteger` and `pad`, twice.
unfoldable pub both_coordinates : ℕ → List ℕ → Decoded (List ℕ)
unfolding read_integer pad
both_coordinates width body = do
  first ← read_integer body
  r ← pad width first.0
  second ← read_integer first.1
  s ← pad width second.0
  all_read second.1 (r ++ s)

unfoldable pub der_ecdsa_to_jose_signature : List ℕ → ℕ → Decoded (List ℕ)
unfolding sequence_length both_coordinates
der_ecdsa_to_jose_signature der width = do
  after_tag ← sequence_tag der
  declared ← sequence_length after_tag
  if declared.0 == length declared.1 then both_coordinates width declared.1 else err length_mismatch

abbrev pub starts_as_sequence : List ℕ → Bool
starts_as_sequence [] = false
starts_as_sequence (b ∷ bs) = b == 48

unfoldable pub normalize_ecdsa_signature : List ℕ → Decoded (List ℕ)
unfolding der_ecdsa_to_jose_signature
normalize_ecdsa_signature signature =
    if length signature == coordinate_bytes * 2
    then ok signature
    else if ltb 8 (length signature) && starts_as_sequence signature
    then der_ecdsa_to_jose_signature signature coordinate_bytes
    else err unknown_encoding

abbrev pub assert_jws_signature_shape : List ℕ → Decoded (Unit {0})
assert_jws_signature_shape signature =
    if length signature == coordinate_bytes * 2 then ok tt else err wrong_shape
