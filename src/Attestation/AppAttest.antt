-- ===== src/Attestation/AppAttest.antt =====
-- packages/attestation/src/app-attest.ts: the verifier of iOS, in the order of its checks. The
-- evidence for the audit is left out.
pub mod Binds
pub mod Genuine
use sdidfy.Prelude.{
  ℕ, ◌*◌, Bool, true, false, not, ◌&&◌, ◌||◌, Option, none, some, List, [], ◌∷◌, ◌++◌, ltb, ◌==◌,
  length, Result, ok, err, ◌>>=◌, ◌>>◌, throw_if,
}
use sdidfy.Attestation.Texts.{Text, codes, same_text, utf8_bytes, utf16_length}
use sdidfy.Attestation.Base64.{decode_base64_strict}
use sdidfy.Attestation.Node.{Certificate, NodeCrypto}
use sdidfy.Attestation.Verdict.{
  trusted_environment, AttestationRejectionCode, malformed, nonce_mismatch, app_mismatch,
  chain_invalid, app_integrity, key_mismatch, ios, AttestationRequest, AttestationAccepted,
  or_reject, derive_assurance_cap,
}
use sdidfy.Attestation.Points.{bytes_equal, jwk_to_raw_point, key_object_to_raw_point}
use sdidfy.Attestation.X509.{verify_certificate_chain, find_certificate_extension}
use sdidfy.Attestation.KeyAttestation.{Outcome, read_certificates, present_extension, present_point}
use sdidfy.Attestation.AuthData.{
  AttestationObject, decode_attestation_object, parse_nonce_extension, AuthenticatorData,
  parse_authenticator_data, cose_key_to_raw_point,
}

-- `IosVerifierConfig`, with the roots that the constructor has parsed.
pub record IosVerifier : Type 0 where
  pub app_id : Text
  pub production : Bool
  pub anchors : List Certificate

abbrev pub max_token_chars : ℕ
max_token_chars = 64 * 1024

-- `1.2.840.113635.100.8.2`
abbrev pub apple_app_attest_nonce_oid : List ℕ
apple_app_attest_nonce_oid = 1 ∷ 2 ∷ 840 ∷ 113635 ∷ 100 ∷ 8 ∷ 2 ∷ []

abbrev pub aaguid_production : List ℕ
aaguid_production = codes "appattest" ++ (0 ∷ 0 ∷ 0 ∷ 0 ∷ 0 ∷ 0 ∷ 0 ∷ [])

abbrev pub aaguid_development : List ℕ
aaguid_development = codes "appattestdevelop"

unfoldable pub check_request : AttestationRequest → Outcome (Unit {0})
check_request request = do
  throw_if (length request.token == 0) malformed
  throw_if (ltb max_token_chars (utf16_length request.token)) malformed
  throw_if (length request.expected_nonce == 0) nonce_mismatch

-- Step 0.
unfoldable pub read_object : Text → Outcome AttestationObject
read_object token = or_reject malformed (decode_base64_strict token) >>= decode_attestation_object

unfoldable pub certified_nonce : Certificate → Outcome (List ℕ)
certified_nonce cert = do
  found ← or_reject malformed (find_certificate_extension cert apple_app_attest_nonce_oid)
  extension ← present_extension found
  parse_nonce_extension extension

-- `SHA256(authData ‖ SHA256(utf8(nonce) ‖ rawPoint))`
abbrev pub expected_digest : NodeCrypto → List ℕ → Text → List ℕ → List ℕ
expected_digest crypto auth_data nonce point =
    crypto.sha256 (auth_data ++ crypto.sha256 (utf8_bytes nonce ++ point))

-- Step 2.
unfoldable pub check_nonce :
    NodeCrypto → AttestationRequest → Certificate → List ℕ → Outcome (Unit {0})
check_nonce crypto request cert auth_data = do
  point ← or_reject malformed (jwk_to_raw_point request.device_key)
  certified ← certified_nonce cert
  throw_if
      (not (bytes_equal certified (expected_digest crypto auth_data request.expected_nonce point)))
      nonce_mismatch

-- Step 7.
unfoldable pub check_environment : Bool → List ℕ → Outcome (Unit {0})
check_environment production aaguid = do
  throw_if (not (same_text aaguid aaguid_production) && not (same_text aaguid aaguid_development))
      malformed
  throw_if (same_text aaguid aaguid_development && production) app_integrity

-- Step 8.
abbrev pub check_cose : Option (List ℕ) → List ℕ → Outcome (Unit {0})
check_cose none point = ok tt
check_cose (some encoded) point = do
  cose ← cose_key_to_raw_point encoded
  throw_if (not (bytes_equal cose point)) key_mismatch

-- Steps 4 to 8.
unfoldable pub check_credential :
    NodeCrypto → IosVerifier → Certificate → AuthenticatorData → Outcome (Unit {0})
check_credential crypto config cert auth = do
  point ← present_point (key_object_to_raw_point cert.public_key)
  throw_if (not (bytes_equal auth.credential_id (crypto.sha256 point))) key_mismatch
  throw_if (not (bytes_equal auth.rp_id_hash (crypto.sha256 (utf8_bytes config.app_id))))
      app_mismatch
  throw_if (not (auth.sign_count == 0)) malformed
  check_environment config.production auth.aaguid
  check_cose auth.credential_public_key point

abbrev pub ios_accepted : AttestationAccepted
ios_accepted = record {
  platform = ios;
  key_security_level = trusted_environment;
  assurance_cap = derive_assurance_cap true trusted_environment false;
}

-- Steps 2 to 8, on `chain[0]!`: the chain that was verified is not empty.
abbrev pub judge_credential :
    NodeCrypto
    → IosVerifier
    → AttestationRequest
    → List ℕ
    → List Certificate
    → Outcome AttestationAccepted
judge_credential crypto config request auth_data [] = err malformed
judge_credential crypto config request auth_data (cert ∷ certs) = do
  check_nonce crypto request cert auth_data
  auth ← parse_authenticator_data auth_data
  check_credential crypto config cert auth
  ok ios_accepted

unfoldable pub verify_app_attest :
    NodeCrypto → IosVerifier → AttestationRequest → Outcome AttestationAccepted
verify_app_attest crypto config request = do
  check_request request
  object ← read_object request.token
  chain ← or_reject malformed (read_certificates crypto object.x5c)
  or_reject chain_invalid (verify_certificate_chain crypto chain config.anchors request.now)
  judge_credential crypto config request object.auth_data chain
