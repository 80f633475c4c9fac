-- ===== src/Attestation/AppAttest/Genuine.antt =====
-- app-attest.ts: what an accepted attestation proves.
use sdidfy.Prelude.{
  ℕ, ◌≡◌, ◌⊎◌, inl, inr, refl, ap, ◌∙◌, Bool, true, false, not, ◌&&◌, some, List, [], ◌∷◌, ◌==◌, ok,
  ◌>>=◌, throw_if, throw_if-eq-ok, >>=-eq-ok, >>-eq-ok, arith,
}
use sdidfy.Attestation.Texts.{same_text, utf8_bytes}
use sdidfy.Attestation.Base64.RoundTrip.{same_text-eq}
use sdidfy.Attestation.Node.{Certificate, NodeCrypto}
use sdidfy.Attestation.Verdict.{
  malformed, nonce_mismatch, app_mismatch, chain_invalid, app_integrity, key_mismatch,
  AttestationRequest, AttestationAccepted, or_reject, or_reject-eq-ok,
}
use sdidfy.Attestation.Points.{
  bytes_equal, bytes_equal_iff, jwk_to_raw_point, key_object_to_raw_point,
}
use sdidfy.Attestation.X509.{verify_certificate_chain}
use sdidfy.Attestation.X509.Trust.{IsTrusted, verify_certificate_chain_iff}
use sdidfy.Attestation.KeyAttestation.{read_certificates, present_point}
use sdidfy.Attestation.KeyAttestation.Genuine.{present_point-eq-ok}
use sdidfy.Attestation.AuthData.{AttestationObject, AuthenticatorData, parse_authenticator_data}
use sdidfy.Attestation.AppAttest.{
  IosVerifier, aaguid_production, aaguid_development, check_request, read_object, certified_nonce,
  expected_digest, check_nonce, check_environment, check_credential, judge_credential,
  verify_app_attest,
}

-- The nonce extension of the certificate is the digest of the authenticator data, the nonce that was
-- issued and the key being enrolled.
abbrev pub Welds : NodeCrypto → AttestationRequest → Certificate → List ℕ → Type 0
Welds crypto request cert auth_data =
    (point : List ℕ) × (jwk_to_raw_point request.device_key ≡ ok point)
    × (certified_nonce cert ≡ ok (expected_digest crypto auth_data request.expected_nonce point))

-- The authenticator data names the certified key and our app, is of a fresh key, and of the
-- production environment where that is asked for.
abbrev pub IsOurs : NodeCrypto → IosVerifier → Certificate → AuthenticatorData → Type 0
IsOurs crypto config cert auth =
    ((point : List ℕ) × (key_object_to_raw_point cert.public_key ≡ some point)
      × (auth.credential_id ≡ crypto.sha256 point))
    × (auth.rp_id_hash ≡ crypto.sha256 (utf8_bytes config.app_id))
    × (auth.sign_count ≡ 0)
    × ((auth.aaguid ≡ aaguid_production)
        ⊎ ((config.production ≡ false) × (auth.aaguid ≡ aaguid_development)))

pub record IsGenuineIos (crypto : NodeCrypto) (config : IosVerifier) (request : AttestationRequest)
    (object : AttestationObject) (cert : Certificate) (certs : List Certificate)
    (auth : AuthenticatorData) : Type 0 where
  pub presented : read_object request.token ≡ ok object
  pub read : read_certificates crypto object.x5c ≡ ok (cert ∷ certs)
  pub trusted : IsTrusted crypto (cert ∷ certs) config.anchors request.now
  pub welded : Welds crypto request cert object.auth_data
  pub parsed : parse_authenticator_data object.auth_data ≡ ok auth
  pub ours : IsOurs crypto config cert auth

not-not : (b : Bool) → not b ≡ false → b ≡ true
not-not true e = refl
not-not false e = absurd (cc)

check_nonce-Welds :
    (crypto : NodeCrypto) (request : AttestationRequest) (cert : Certificate) (auth_data : List ℕ)
    → check_nonce crypto request cert auth_data ≡ ok tt
    → Welds crypto request cert auth_data
unfolding check_nonce
check_nonce-Welds crypto request cert auth_data e =
    let (point, known, e1) =
      >>=-eq-ok (or_reject malformed (jwk_to_raw_point request.device_key)) _ e in
    let (certified, read, e2) = >>=-eq-ok (certified_nonce cert) _ e1 in
    let digest = expected_digest crypto auth_data request.expected_nonce point in
    let same : bytes_equal certified digest ≡ true = throws_not (bytes_equal certified digest) e2 in
    (
      point,
      or_reject-eq-ok malformed (jwk_to_raw_point request.device_key) known,
      read ∙ ap ok ((bytes_equal_iff certified digest).0 same).0,
    )
  where
    throws_not : (b : Bool) → throw_if (not b) nonce_mismatch ≡ ok tt → b ≡ true
    throws_not true e = refl
    throws_not false e = cc

environment_cases :
    (p d production : Bool)
    → (throw_if (not p && not d) malformed >>= λ _. throw_if (d && production) app_integrity)
      ≡ ok tt
    → (p ≡ true) ⊎ ((production ≡ false) × (d ≡ true))
environment_cases true d production e = inl refl
environment_cases false true false e = inr (refl, refl)
environment_cases false true true e = cc
environment_cases false false production e = cc

check_environment_sound :
    (production : Bool) (aaguid : List ℕ)
    → check_environment production aaguid ≡ ok tt
    → (aaguid ≡ aaguid_production) ⊎ ((production ≡ false) × (aaguid ≡ aaguid_development))
unfolding check_environment
check_environment_sound production aaguid e =
    elim (environment_cases (same_text aaguid aaguid_production)
      (same_text aaguid aaguid_development) production e) [
        | inl real ↦ inl (same_text-eq aaguid aaguid_production real)
        | inr (allowed, develop) ↦ inr (allowed, same_text-eq aaguid aaguid_development develop)
      ]

check_credential-IsOurs :
    (crypto : NodeCrypto) (config : IosVerifier) (cert : Certificate) (auth : AuthenticatorData)
    → check_credential crypto config cert auth ≡ ok tt
    → IsOurs crypto config cert auth
unfolding check_credential
check_credential-IsOurs crypto config cert auth e =
    let (point, has_point, e1) =
      >>=-eq-ok (present_point (key_object_to_raw_point cert.public_key)) _ e in
    let (id, e2) =
      throw_if-eq-ok (not (bytes_equal auth.credential_id (crypto.sha256 point))) key_mismatch _
        e1 in
    let (app, e3) =
      throw_if-eq-ok (not (bytes_equal auth.rp_id_hash (crypto.sha256 (utf8_bytes config.app_id))))
        app_mismatch _ e2 in
    let (fresh, e4) = throw_if-eq-ok (not (auth.sign_count == 0)) malformed _ e3 in
    let (environment, e5) = >>-eq-ok (check_environment config.production auth.aaguid) _ e4 in
    (
      (
        point,
        present_point-eq-ok (key_object_to_raw_point cert.public_key) has_point,
        ((bytes_equal_iff auth.credential_id (crypto.sha256 point)).0 (not-not _ id)).0,
      ),
      ((bytes_equal_iff auth.rp_id_hash (crypto.sha256 (utf8_bytes config.app_id))).0
          (not-not _ app)).0,
      ground (arith, fresh),
      check_environment_sound config.production auth.aaguid environment,
    )

pub verify_app_attest-IsGenuineIos :
    (crypto : NodeCrypto) (config : IosVerifier) (request : AttestationRequest)
    (verdict : AttestationAccepted)
    → verify_app_attest crypto config request ≡ ok verdict
    → (object : AttestationObject) × (cert : Certificate) × (certs : List Certificate)
      × (auth : AuthenticatorData) × IsGenuineIos crypto config request object cert certs auth
unfolding verify_app_attest
verify_app_attest-IsGenuineIos crypto config request verdict e =
    let (asked, e1) = >>-eq-ok (check_request request) _ e in
    let (object, presented, e2) = >>=-eq-ok (read_object request.token) _ e1 in
    let (chain, read, e3) =
      >>=-eq-ok (or_reject malformed (read_certificates crypto object.x5c)) _ e2 in
    let (fine, e4) =
      >>-eq-ok
        (or_reject chain_invalid (verify_certificate_chain crypto chain config.anchors request.now))
        _ e3 in
    on_chain object chain presented
      (or_reject-eq-ok malformed (read_certificates crypto object.x5c) read)
      (or_reject-eq-ok chain_invalid
        (verify_certificate_chain crypto chain config.anchors request.now) fine)
      e4
  where
    on_chain :
        (object : AttestationObject) (chain : List Certificate)
        → read_object request.token ≡ ok object
        → read_certificates crypto object.x5c ≡ ok chain
        → verify_certificate_chain crypto chain config.anchors request.now ≡ ok tt
        → judge_credential crypto config request object.auth_data chain ≡ ok verdict
        → (object : AttestationObject) × (cert : Certificate) × (certs : List Certificate)
          × (auth : AuthenticatorData) × IsGenuineIos crypto config request object cert certs auth
    on_chain object [] presented read fine e = cc
    on_chain object (cert ∷ certs) presented read fine e =
        let (welded, e1) = >>-eq-ok (check_nonce crypto request cert object.auth_data) _ e in
        let (auth, parsed, e2) = >>=-eq-ok (parse_authenticator_data object.auth_data) _ e1 in
        let (ours, e3) = >>-eq-ok (check_credential crypto config cert auth) _ e2 in
        (
          object,
          cert,
          certs,
          auth,
          record {
            presented = presented;
            read = read;
            trusted =
                (verify_certificate_chain_iff crypto (cert ∷ certs) config.anchors request.now).0
                  fine;
            welded = check_nonce-Welds crypto request cert object.auth_data welded;
            parsed = parsed;
            ours = check_credential-IsOurs crypto config cert auth ours;
          },
        )
