-- ===== src/Attestation/AuthData.antt =====
-- packages/attestation/src/app-attest.ts: the members of an App Attest object. What the parsers throw
-- becomes the rejection `malformed` at once, as their only caller makes it.
use sdidfy.Prelude.{
  ℕ, ◌+◌, ◌/◌, ◌%◌, Bool, false, not, ◌||◌, Option, none, some, List, [], ◌∷◌, ◌++◌, ltb, ◌==◌,
  if◌then◌else◌, length, take, drop, ok, err, ◌>>=◌, ◌>>◌, throw_if,
}
use sdidfy.Prelude.Int.{pos, negsuc}
use sdidfy.Attestation.Digits.{big_endian}
use sdidfy.Attestation.Texts.{codes, same_text}
use sdidfy.Attestation.Verdict.{malformed, or_reject}
use sdidfy.Attestation.Der.{DerNode, default_der_limits, parse_der}
use sdidfy.Attestation.Der.Access.{der_sequence, der_explicit, der_octet_string}
use sdidfy.Attestation.X509.{first_node}
use sdidfy.Attestation.Cbor
use sdidfy.Attestation.Cbor.{
  CborKey, text_key, number_key, CborValue, number, undefined_value, CborMap, empty, entry,
  same_key, CborValues, decode_cbor, default_cbor_limits,
}
use sdidfy.Attestation.Cbor.Access.{cbor_as_map, cbor_as_bytes, cbor_as_text, cbor_as_array}
use sdidfy.Attestation.KeyAttestation.{Outcome}

-- `map.get(key)`
unfoldable pub get : CborKey → CborMap → CborValue
unfolding same_key
get key empty = undefined_value
get key (entry k v m) = let rest = get key m in if same_key k key then v else rest

pub record AttestationObject : Type 0 where
  pub x5c : List (List ℕ)
  pub receipt : Option (List ℕ)
  pub auth_data : List ℕ

unfoldable pub byte_strings : CborValues → Outcome (List (List ℕ))
byte_strings Cbor.nil = ok []
byte_strings (Cbor.cons v vs) = do
  raw ← or_reject malformed (cbor_as_bytes v)
  rest ← byte_strings vs
  ok (raw ∷ rest)

abbrev pub optional_bytes : CborValue → Outcome (Option (List ℕ))
optional_bytes undefined_value = ok none
optional_bytes v = do raw ← or_reject malformed (cbor_as_bytes v); ok (some raw)

unfoldable pub decode_attestation_object : List ℕ → Outcome AttestationObject
decode_attestation_object bytes = do
  value ← or_reject malformed (decode_cbor bytes default_cbor_limits)
  root ← or_reject malformed (cbor_as_map value)
  fmt ← or_reject malformed (cbor_as_text (get (text_key (codes "fmt")) root))
  throw_if (not (same_text fmt (codes "apple-appattest"))) malformed
  att_stmt ← or_reject malformed (cbor_as_map (get (text_key (codes "attStmt")) root))
  entries ← or_reject malformed (cbor_as_array (get (text_key (codes "x5c")) att_stmt))
  x5c ← byte_strings entries
  throw_if (length x5c == 0) malformed
  auth_data ← or_reject malformed (cbor_as_bytes (get (text_key (codes "authData")) root))
  receipt ← optional_bytes (get (text_key (codes "receipt")) att_stmt)
  ok (record { x5c = x5c; receipt = receipt; auth_data = auth_data })

abbrev pub nonce_in : Option DerNode → Outcome (List ℕ)
nonce_in none = err malformed
nonce_in (some first) = or_reject malformed (der_explicit first >>= der_octet_string)

unfoldable pub parse_nonce_extension : List ℕ → Outcome (List ℕ)
parse_nonce_extension der = do
  fields ← or_reject malformed (parse_der der default_der_limits >>= der_sequence)
  nonce_in (first_node fields)

pub record AuthenticatorData : Type 0 where
  pub rp_id_hash : List ℕ
  pub flags : ℕ
  pub sign_count : ℕ
  pub aaguid : List ℕ
  pub credential_id : List ℕ
  pub credential_public_key : Option (List ℕ)

abbrev pub byte_at : ℕ → List ℕ → ℕ
byte_at n bytes = big_endian 0 (take 1 (drop n bytes))

-- `rpIdHash(32) ‖ flags(1) ‖ signCount(4) ‖ aaguid(16) ‖ length(2) ‖ credentialId ‖ key`
unfoldable pub parse_authenticator_data : List ℕ → Outcome AuthenticatorData
unfolding big_endian
parse_authenticator_data bytes = do
  throw_if (ltb (length bytes) 37) malformed
  throw_if (byte_at 32 bytes / 0x40 % 2 == 0) malformed
  throw_if (ltb (length bytes) (37 + 16 + 2)) malformed
  let credential_id_length = big_endian 0 (take 2 (drop (37 + 16) bytes))
  throw_if (credential_id_length == 0 || ltb (length bytes) (55 + credential_id_length)) malformed
  ok (record {
    rp_id_hash = take 32 bytes;
    flags = byte_at 32 bytes;
    sign_count = big_endian 0 (take 4 (drop 33 bytes));
    aaguid = take 16 (drop 37 bytes);
    credential_id = take credential_id_length (drop 55 bytes);
    credential_public_key =
        if ltb (55 + credential_id_length) (length bytes)
        then some (drop (55 + credential_id_length) bytes)
        else none;
  })

-- `key.get(n) !== k`, for a small k
abbrev pub is_number : CborValue → ℕ → Bool
is_number (number (pos m)) k = m == k
is_number _ k = false

unfoldable pub cose_key_to_raw_point : List ℕ → Outcome (List ℕ)
cose_key_to_raw_point bytes = do
  value ← or_reject malformed (decode_cbor bytes default_cbor_limits)
  key ← or_reject malformed (cbor_as_map value)
  throw_if (not (is_number (get (number_key (pos 1)) key) 2)) malformed
  throw_if (not (is_number (get (number_key (negsuc 0)) key) 1)) malformed
  x ← or_reject malformed (cbor_as_bytes (get (number_key (negsuc 1)) key))
  y ← or_reject malformed (cbor_as_bytes (get (number_key (negsuc 2)) key))
  throw_if (not (length x == 32) || not (length y == 32)) malformed
  ok (0x04 ∷ x ++ y)
