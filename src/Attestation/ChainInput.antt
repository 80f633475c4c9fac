-- ===== src/Attestation/ChainInput.antt =====
-- packages/attestation/src/key-attestation.ts: `parseCertificateChainInput`, which takes the chain as
-- a JSON array, a PEM bundle or a list, and is strict on the base64 inside.
use sdidfy.Prelude.{
  ℕ, zero, suc, ◌-◌, ◌*◌, Bool, true, false, ◌&&◌, ◌||◌, Option, none, some, List, [], ◌∷◌, ltb,
  ◌==◌, if◌then◌else◌, length, Result, ok, err, ◌>>=◌, ◌>>◌, throw_if,
}
use sdidfy.Attestation.Texts.{Text, codes, utf16_length, trim, without_spaces, is_space, reversed}
use sdidfy.Attestation.Base64.{
  MalformedInput, chain_too_large, chain_empty, chain_not_json, chain_not_strings, unterminated_pem,
  too_many_certificates, certificate_too_large, decode_base64_strict,
}
use sdidfy.Attestation.Json.{Json, array_json, string_json, Items, no_items, item}
use sdidfy.Attestation.Node.{NodeCrypto}
use sdidfy.Attestation.X509.{max_chain_length}

abbrev pub max_encoded_cert_chars : ℕ
max_encoded_cert_chars = 16 * 1024

abbrev pub starts_with : Text → Text → Bool
starts_with [] s = true
starts_with (p ∷ ps) [] = false
starts_with (p ∷ ps) (c ∷ cs) = p == c && starts_with ps cs

-- `s.split(mark)`: what is read of a part, and how much of a mark is still to be skipped.
unfoldable pub split_from : Text → ℕ → Text → Text → List Text
split_from mark skip part [] = reversed [] part ∷ []
split_from mark (suc skip) part (c ∷ cs) = split_from mark skip part cs
split_from mark zero part (c ∷ cs) =
    let next = split_from mark (length mark - 1) [] cs in
    let same_part = split_from mark zero (c ∷ part) cs in
    if starts_with mark (c ∷ cs) then reversed [] part ∷ next else same_part

abbrev pub split : Text → Text → List Text
split mark s = split_from mark 0 [] s

-- `s.slice(0, s.indexOf(mark))`, nothing where the mark is missing.
unfoldable pub before : Text → Text → Text → Option Text
before mark part [] = none
before mark part (c ∷ cs) =
    let more = before mark (c ∷ part) cs in
    if starts_with mark (c ∷ cs) then some (reversed [] part) else more

abbrev pub part_of : Text → List Text
part_of [] = []
part_of (c ∷ cs) = reversed [] (c ∷ cs) ∷ []

abbrev pub after_part : Text → List Text → List Text
after_part [] parts = parts
after_part (c ∷ cs) parts = reversed [] (c ∷ cs) ∷ parts

-- `s.split(/[\s,]+/).filter((part) => part.length > 0)`
unfoldable pub words : Text → Text → List Text
words part [] = part_of part
words part (c ∷ cs) =
    let next = words [] cs in
    let same_part = words (c ∷ part) cs in
    if is_space c || c == b',' then after_part part next else same_part

abbrev pub strings_in : Items → Result MalformedInput (List Text)
strings_in no_items = ok []
strings_in (item (string_json s) rest) = do strings ← strings_in rest; ok (trim s ∷ strings)
strings_in (item other rest) = err chain_not_strings

abbrev pub strings_of : Option Json → Result MalformedInput (List Text)
strings_of none = err chain_not_json
strings_of (some (array_json items)) = strings_in items
strings_of (some other) = err chain_not_strings

abbrev pub body_of : Option Text → Result MalformedInput Text
body_of none = err unterminated_pem
body_of (some body) = ok (without_spaces body)

abbrev pub begin_mark : Text
begin_mark = codes "-----BEGIN CERTIFICATE-----"

abbrev pub end_mark : Text
end_mark = codes "-----END CERTIFICATE-----"

unfoldable pub pem_bodies : List Text → Result MalformedInput (List Text)
pem_bodies [] = ok []
pem_bodies (block ∷ blocks) = do
  body ← body_of (before end_mark [] block)
  rest ← pem_bodies blocks
  ok (body ∷ rest)

-- A text is split in two or more just where the mark occurs.
abbrev pub unmarked : Text → List Text → Result MalformedInput (List Text)
unmarked trimmed [] = ok (words [] trimmed)
unmarked trimmed (whole ∷ []) = ok (words [] trimmed)
unmarked trimmed (head ∷ block ∷ blocks) = pem_bodies (block ∷ blocks)

unfoldable pub encoded_certificates : NodeCrypto → Text → Result MalformedInput (List Text)
encoded_certificates crypto trimmed =
    if starts_with (b'[' ∷ []) trimmed
    then strings_of (crypto.parse_json trimmed)
    else unmarked trimmed (split begin_mark trimmed)

unfoldable pub decode_certificates : List Text → Result MalformedInput (List (List ℕ))
decode_certificates [] = ok []
decode_certificates (encoded ∷ rest) = do
  throw_if (ltb max_encoded_cert_chars (utf16_length encoded)) certificate_too_large
  der ← decode_base64_strict encoded
  ders ← decode_certificates rest
  ok (der ∷ ders)

unfoldable pub parse_certificate_chain_input :
    NodeCrypto → Text → Result MalformedInput (List (List ℕ))
parse_certificate_chain_input crypto value = do
  throw_if (ltb (max_chain_length * max_encoded_cert_chars) (utf16_length value)) chain_too_large
  let trimmed = trim value
  throw_if (length trimmed == 0) chain_empty
  encoded ← encoded_certificates crypto trimmed
  throw_if (length encoded == 0) chain_empty
  throw_if (ltb max_chain_length (length encoded)) too_many_certificates
  decode_certificates encoded
