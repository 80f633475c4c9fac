-- ===== src/Attestation/Verdict.antt =====
-- packages/attestation/src/types.ts and assurance.ts: what a verifier is asked, what it answers, and
-- the cap on the assurance that follows. The operator-facing detail of a rejection and the evidence
-- kept for the audit are left out.
use sdidfy.Prelude.{
  ℕ, ◌*◌, ◌≡◌, ap, Bool, true, false, Option, Result, ok, err, ok-injective, err-ne-ok,
  if◌then◌else◌,
}
use sdidfy.Shared.Assurance.{AssuranceLevel, al1, al2}
use sdidfy.Attestation.Texts.{Text}

pub data KeySecurityLevel : Type 0 where
  software trusted_environment strongbox : KeySecurityLevel

pub data AttestationRejectionCode : Type 0 where
  malformed nonce_mismatch app_mismatch chain_invalid : AttestationRejectionCode
  device_integrity app_integrity key_mismatch stale verifier_unavailable : AttestationRejectionCode

pub data Platform : Type 0 where
  android ios : Platform

-- A public key as a JWK.
pub record DeviceKey : Type 0 where
  pub kty : Text
  pub crv : Text
  pub x : Text
  pub y : Text

pub record AttestationRequest : Type 0 where
  pub token : Text
  pub key_attestation : Option Text
  pub expected_nonce : Text
  pub device_key : DeviceKey
  pub now : ℕ

pub record AttestationAccepted : Type 0 where
  pub platform : Platform
  pub key_security_level : KeySecurityLevel
  pub assurance_cap : AssuranceLevel

abbrev pub AttestationResult : Type 0
AttestationResult = Result AttestationRejectionCode AttestationAccepted

abbrev pub reject : {A : Type 0} → AttestationRejectionCode → Result AttestationRejectionCode A
reject code = err code

-- `try { return f(); } catch { return reject(code); }`
abbrev pub or_reject :
    {E A : Type 0} → AttestationRejectionCode → Result E A → Result AttestationRejectionCode A
or_reject code (ok a) = ok a
or_reject code (err e) = err code

abbrev pub default_max_token_age_ms : ℕ
default_max_token_age_ms = 5 * 60 * 1000

abbrev pub is_strongbox : KeySecurityLevel → Bool
is_strongbox strongbox = true
is_strongbox _ = false

abbrev pub is_software : KeySecurityLevel → Bool
is_software software = true
is_software _ = false

unfoldable pub derive_assurance_cap : Bool → KeySecurityLevel → Bool → AssuranceLevel
derive_assurance_cap false level require_strongbox = al1
derive_assurance_cap true level true = if is_strongbox level then al2 else al1
derive_assurance_cap true level false = if is_software level then al1 else al2

pub or_reject-eq-ok :
    {E A : Type 0} (code : AttestationRejectionCode) (r : Result E A) {a : A}
    → or_reject code r ≡ ok a
    → r ≡ ok a
or_reject-eq-ok code (ok a) e = ap ok (ok-injective e)
or_reject-eq-ok code (err x) e = absurd (err-ne-ok e)
