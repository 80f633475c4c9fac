-- ===== src/Attestation/PlayIntegrity/Genuine.antt =====
-- play-integrity.ts: what an accepted attestation proves, and what the cap AL2 rests on.
use mathlib.Core.Path.{subst}
use sdidfy.Prelude.{
  ◌+◌, ◌≤◌, ◌≡◌, ◌≢◌, ◌⊎◌, inl, inr, refl, sym, ap, ◌∙◌, Bool, true, false, not, ◌||◌, Option, none,
  some, List, [], ◌∷◌, ltb, ok, throw_if, throw_if-eq-ok, >>=-eq-ok, >>-eq-ok, ok-injective, arith,
}
use sdidfy.Shared.Assurance.{al2}
use sdidfy.Attestation.Texts.{Text, codes, same_text, utf8_bytes, includes_text}
use sdidfy.Attestation.Base64.RoundTrip.{same_text-eq}
use sdidfy.Attestation.Json.{Json}
use sdidfy.Attestation.Node.{Certificate, NodeCrypto}
use sdidfy.Attestation.Verdict.{
  KeySecurityLevel, software, trusted_environment, strongbox, malformed, nonce_mismatch,
  app_mismatch, device_integrity, app_integrity, stale, AttestationRequest, AttestationAccepted,
  or_reject, or_reject-eq-ok, derive_assurance_cap,
}
use sdidfy.Attestation.Points.{bytes_equal_iff, strings_equal}
use sdidfy.Attestation.KeyDescription.{KeyDescription}
use sdidfy.Attestation.KeyAttestation.{some_included}
use sdidfy.Attestation.KeyAttestation.Genuine.{IsGenuine, verify_android_key_attestation-IsGenuine}
use sdidfy.Attestation.IntegrityPayload.{IntegrityPayload, parse_integrity_payload}
use sdidfy.Attestation.PlayIntegrity.{
  AndroidVerifier, clock_skew_tolerance_ms, check_request, decoded, is_other_package, check_payload,
  key_level, android_accepted, verify_play_integrity,
}

-- What the payload must say.
pub record IsFit (config : AndroidVerifier) (request : AttestationRequest) (p : IntegrityPayload)
    : Type 0 where
  pub ours : p.request_package_name ≡ config.package_name
  pub asked : utf8_bytes p.nonce ≡ utf8_bytes request.expected_nonce
  pub not_future : p.timestamp_millis ≤ request.now + clock_skew_tolerance_ms
  pub not_stale : request.now ≤ p.timestamp_millis + config.max_token_age_ms
  pub recognized : p.app_recognition_verdict ≡ codes "PLAY_RECOGNIZED"
  pub same_app : (n : Text) → p.app_package_name ≡ some n → n ≡ config.package_name
  pub signed : some_included p.certificate_digests config.certificate_digests ≡ true
  pub sound :
      (includes_text p.device_verdicts (codes "MEETS_DEVICE_INTEGRITY") ≡ true)
      ⊎ (includes_text p.device_verdicts (codes "MEETS_STRONG_INTEGRITY") ≡ true)

-- A hardware key attestation was presented, and is over the key being enrolled.
abbrev pub HasHardwareKey :
    NodeCrypto → AndroidVerifier → AttestationRequest → KeySecurityLevel → Type 0
HasHardwareKey crypto config request level =
    (chain : Text) × (leaf : Certificate) × (certs : List Certificate) × (d : KeyDescription)
    × (request.key_attestation ≡ some chain)
    × IsGenuine crypto
        (record {
          key_attestation = chain;
          expected_nonce = request.expected_nonce;
          device_key = request.device_key;
          package_name = config.package_name;
          certificate_digests = config.certificate_digests;
          now = request.now;
          trust_anchors = config.anchors;
        })
        leaf certs d level

not-not : (b : Bool) → not b ≡ false → b ≡ true
not-not true e = refl
not-not false e = absurd (cc)

or_true : (a b : Bool) → not (a || b) ≡ false → (a ≡ true) ⊎ (b ≡ true)
or_true true b e = inl refl
or_true false true e = inr refl
or_true false false e = cc

strings_equal-eq : (a b : Text) → strings_equal a b ≡ true → utf8_bytes a ≡ utf8_bytes b
unfolding strings_equal
strings_equal-eq a b e = ((bytes_equal_iff (utf8_bytes a) (utf8_bytes b)).0 e).0

same_package :
    (o : Option Text) (package_name : Text)
    → is_other_package o package_name ≡ false
    → (n : Text) → o ≡ some n
    → n ≡ package_name
same_package none package_name e n is = cc
same_package (some p) package_name e n is =
    let named : p ≡ n = cc in
    sym named ∙ same_text-eq p package_name (not-not (same_text p package_name) e)

check_payload-IsFit :
    (config : AndroidVerifier) (request : AttestationRequest) (p : IntegrityPayload)
    → check_payload config request p ≡ ok tt
    → IsFit config request p
unfolding check_payload
check_payload-IsFit config request p e =
    let (ours, e1) =
      throw_if-eq-ok (not (same_text p.request_package_name config.package_name)) app_mismatch _
        e in
    let (asked, e2) =
      throw_if-eq-ok (not (strings_equal p.nonce request.expected_nonce)) nonce_mismatch _ e1 in
    let (not_future, e3) =
      throw_if-eq-ok (ltb (request.now + clock_skew_tolerance_ms) p.timestamp_millis) stale _ e2 in
    let (not_stale, e4) =
      throw_if-eq-ok (ltb (p.timestamp_millis + config.max_token_age_ms) request.now) stale _ e3 in
    let (recognized, e5) =
      throw_if-eq-ok (not (same_text p.app_recognition_verdict (codes "PLAY_RECOGNIZED")))
        app_integrity _ e4 in
    let (same_app, e6) =
      throw_if-eq-ok (is_other_package p.app_package_name config.package_name) app_mismatch _ e5 in
    let (signed, e7) =
      throw_if-eq-ok (not (some_included p.certificate_digests config.certificate_digests))
        app_mismatch _ e6 in
    record {
      ours = same_text-eq p.request_package_name config.package_name (not-not _ ours);
      asked =
          strings_equal-eq p.nonce request.expected_nonce
            (not-not (strings_equal p.nonce request.expected_nonce) asked);
      not_future = ground (arith, not_future);
      not_stale = ground (arith, not_stale);
      recognized =
          same_text-eq p.app_recognition_verdict (codes "PLAY_RECOGNIZED") (not-not _ recognized);
      same_app = same_package p.app_package_name config.package_name same_app;
      signed = not-not _ signed;
      sound =
          last (includes_text p.device_verdicts (codes "MEETS_DEVICE_INTEGRITY"))
            (includes_text p.device_verdicts (codes "MEETS_STRONG_INTEGRITY")) e7;
    }
  where
    last : (a b : Bool) → throw_if (not (a || b)) device_integrity ≡ ok tt → (a ≡ true) ⊎ (b ≡ true)
    last true b e = inl refl
    last false true e = inr refl
    last false false e = cc

key_level-HasHardwareKey :
    (crypto : NodeCrypto) (config : AndroidVerifier) (request : AttestationRequest)
    (o : Option Text) (level : KeySecurityLevel)
    → request.key_attestation ≡ o
    → key_level crypto config request o ≡ ok level
    → level ≢ software
    → HasHardwareKey crypto config request level
key_level-HasHardwareKey crypto config request none level is e hard =
    absurd (hard (sym (ok-injective e)))
key_level-HasHardwareKey crypto config request (some []) level is e hard =
    absurd (hard (sym (ok-injective e)))
key_level-HasHardwareKey crypto config request (some (c ∷ cs)) level is e hard =
    let (leaf, certs, d, genuine) =
      verify_android_key_attestation-IsGenuine crypto
        (record {
          key_attestation = c ∷ cs;
          expected_nonce = request.expected_nonce;
          device_key = request.device_key;
          package_name = config.package_name;
          certificate_digests = config.certificate_digests;
          now = request.now;
          trust_anchors = config.anchors;
        })
        level e in
    (c ∷ cs, leaf, certs, d, is, genuine)

derive_assurance_cap-hard :
    (level : KeySecurityLevel) (required : Bool)
    → derive_assurance_cap true level required ≡ al2
    → level ≢ software
unfolding derive_assurance_cap
derive_assurance_cap-hard software true e is = cc
derive_assurance_cap-hard software false e is = cc
derive_assurance_cap-hard trusted_environment required e is = cc
derive_assurance_cap-hard strongbox required e is = cc

pub verify_play_integrity-IsFit :
    (crypto : NodeCrypto) (config : AndroidVerifier) (request : AttestationRequest)
    (verdict : AttestationAccepted)
    → verify_play_integrity crypto config request ≡ ok verdict
    → ((answer : Json) × (p : IntegrityPayload) × (config.decode_token request.token ≡ some answer)
        × (parse_integrity_payload answer ≡ ok p)
        × IsFit config request p)
      × (verdict.assurance_cap ≡ al2
          → HasHardwareKey crypto config request verdict.key_security_level)
unfolding verify_play_integrity
verify_play_integrity-IsFit crypto config request verdict e =
    let (asked, e1) = >>-eq-ok (check_request request) _ e in
    let (answer, answered, e2) = >>=-eq-ok (decoded (config.decode_token request.token)) _ e1 in
    let (p, parsed, e3) = >>=-eq-ok (or_reject malformed (parse_integrity_payload answer)) _ e2 in
    let (fit, e4) = >>-eq-ok (check_payload config request p) _ e3 in
    let (level, proven, e5) =
      >>=-eq-ok (key_level crypto config request request.key_attestation) _ e4 in
    let is : android_accepted config level ≡ verdict = ok-injective e5 in
    (
      (
        answer,
        p,
        decoded-eq-ok (config.decode_token request.token) answered,
        or_reject-eq-ok malformed (parse_integrity_payload answer) parsed,
        check_payload-IsFit config request p fit,
      ),
      λ cap.
          subst
            (λ (v : AttestationAccepted). HasHardwareKey crypto config request v.key_security_level)
            is
            (key_level-HasHardwareKey crypto config request request.key_attestation level refl
              proven
              (derive_assurance_cap-hard level config.require_strong_box
                (ap (λ (v : AttestationAccepted). v.assurance_cap) is ∙ cap))),
    )
  where
    decoded-eq-ok : (o : Option Json) {a : Json} → decoded o ≡ ok a → o ≡ some a
    decoded-eq-ok none e = cc
    decoded-eq-ok (some b) e = ap some (ok-injective e)
