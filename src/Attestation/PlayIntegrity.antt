-- ===== src/Attestation/PlayIntegrity.antt =====
-- packages/attestation/src/play-integrity.ts: the verifier of Android, in the order of its checks.
-- The evidence for the audit is left out.
pub mod Genuine
use sdidfy.Prelude.{
  ℕ, ◌+◌, ◌*◌, Bool, true, false, not, ◌&&◌, ◌||◌, Option, none, some, List, [], ◌∷◌, ltb, ◌==◌,
  length, Result, ok, err, ◌>>=◌, ◌>>◌, throw_if,
}
use sdidfy.Attestation.Texts.{Text, codes, same_text, includes_text, utf16_length}
use sdidfy.Attestation.Json.{Json}
use sdidfy.Attestation.Node.{Certificate, NodeCrypto}
use sdidfy.Attestation.Verdict.{
  KeySecurityLevel, software, AttestationRejectionCode, malformed, nonce_mismatch, app_mismatch,
  device_integrity, app_integrity, stale, verifier_unavailable, android, AttestationRequest,
  AttestationAccepted, or_reject, derive_assurance_cap,
}
use sdidfy.Attestation.Points.{strings_equal}
use sdidfy.Attestation.KeyAttestation.{
  Outcome, AndroidKeyAttestationInput, some_included, verify_android_key_attestation,
}
use sdidfy.Attestation.IntegrityPayload.{IntegrityPayload, parse_integrity_payload}

-- `AndroidVerifierConfig` and the options of the verifier. The decoder answers or throws.
pub record AndroidVerifier : Type 0 where
  pub package_name : Text
  pub certificate_digests : List Text
  pub decode_token : Text → Option Json
  pub require_strong_box : Bool
  pub max_token_age_ms : ℕ
  pub anchors : List Certificate

abbrev pub clock_skew_tolerance_ms : ℕ
clock_skew_tolerance_ms = 60 * 1000

abbrev pub max_token_chars : ℕ
max_token_chars = 64 * 1024

unfoldable pub check_request : AttestationRequest → Outcome (Unit {0})
check_request request = do
  throw_if (length request.token == 0) malformed
  throw_if (ltb max_token_chars (utf16_length request.token)) malformed
  throw_if (length request.expected_nonce == 0) nonce_mismatch

abbrev pub decoded : Option Json → Outcome Json
decoded none = err verifier_unavailable
decoded (some v) = ok v

-- `payload.appPackageName !== undefined && payload.appPackageName !== config.packageName`
abbrev pub is_other_package : Option Text → Text → Bool
is_other_package none package_name = false
is_other_package (some p) package_name = not (same_text p package_name)

-- Steps 3 to 7; `age` is compared as a sum, as it may be negative.
unfoldable pub check_payload :
    AndroidVerifier → AttestationRequest → IntegrityPayload → Outcome (Unit {0})
check_payload config request p = do
  throw_if (not (same_text p.request_package_name config.package_name)) app_mismatch
  throw_if (not (strings_equal p.nonce request.expected_nonce)) nonce_mismatch
  throw_if (ltb (request.now + clock_skew_tolerance_ms) p.timestamp_millis) stale
  throw_if (ltb (p.timestamp_millis + config.max_token_age_ms) request.now) stale
  throw_if (not (same_text p.app_recognition_verdict (codes "PLAY_RECOGNIZED"))) app_integrity
  throw_if (is_other_package p.app_package_name config.package_name) app_mismatch
  throw_if (not (some_included p.certificate_digests config.certificate_digests)) app_mismatch
  throw_if
      (not (
        includes_text p.device_verdicts (codes "MEETS_DEVICE_INTEGRITY")
        || includes_text p.device_verdicts (codes "MEETS_STRONG_INTEGRITY")))
      device_integrity

-- Step 8.
abbrev pub key_level :
    NodeCrypto → AndroidVerifier → AttestationRequest → Option Text → Outcome KeySecurityLevel
key_level crypto config request none = ok software
key_level crypto config request (some []) = ok software
key_level crypto config request (some (c ∷ cs)) = verify_android_key_attestation crypto (record {
  key_attestation = c ∷ cs;
  expected_nonce = request.expected_nonce;
  device_key = request.device_key;
  package_name = config.package_name;
  certificate_digests = config.certificate_digests;
  now = request.now;
  trust_anchors = config.anchors;
})

abbrev pub android_accepted : AndroidVerifier → KeySecurityLevel → AttestationAccepted
android_accepted config level = record {
  platform = android;
  key_security_level = level;
  assurance_cap = derive_assurance_cap true level config.require_strong_box;
}

unfoldable pub verify_play_integrity :
    NodeCrypto → AndroidVerifier → AttestationRequest → Outcome AttestationAccepted
verify_play_integrity crypto config request = do
  check_request request
  answer ← decoded (config.decode_token request.token)
  payload ← or_reject malformed (parse_integrity_payload answer)
  check_payload config request payload
  level ← key_level crypto config request request.key_attestation
  ok (android_accepted config level)
