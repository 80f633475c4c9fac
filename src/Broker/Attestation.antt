-- ===== src/Broker/Attestation.antt =====
-- apps/broker/src/trust/attestation.service.ts. The verifiers are those of packages/attestation. The
-- precise code of a refusal, which is kept for the audit, and the metrics are left out.
pub mod Strict
pub mod Backed
use Prim.Native.String.{String}
use sdidfy.Prelude.{
  ℕ, Bool, true, false, not, ◌&&◌, ◌||◌, Option, none, some, List, [], ◌∷◌, same, if◌then◌else◌,
  Result, ok, err,
}
use sdidfy.Shared.Assurance.{AssuranceLevel, al1, al2}
use sdidfy.Shared.Errors.{
  Thrown, bridge_error, other_error, attestation_rejected, attestation_unavailable,
}
use sdidfy.Attestation.Texts.{Text, codes}
use sdidfy.Attestation.Json.{Json, null_json, boolean_json, object_json, field_of}
use sdidfy.Attestation.Node.{NodeCrypto}
use sdidfy.Attestation.Verdict.{
  Platform, android, ios, DeviceKey, AttestationRequest, AttestationAccepted, AttestationResult,
  AttestationRejectionCode, verifier_unavailable, is_software,
}
use sdidfy.Attestation.PlayIntegrity.{AndroidVerifier, verify_play_integrity}
use sdidfy.Attestation.AppAttest.{IosVerifier, verify_app_attest}
use sdidfy.Broker.World.{World}
use sdidfy.Broker.Handler.{Handler, ◌>>=◌, ◌>>◌, pure, throw, refuse_if, attempt, lift}
use sdidfy.Broker.Challenge.{consume_attestation_nonce}

pub record AttestationInput : Type 0 where
  pub platform : String
  pub token : Text
  pub key_attestation : Option Text
  pub nonce_id : Option String

pub record AttestationVerdict : Type 0 where
  pub hardware_backed : Bool
  pub platform : String
  pub assurance_cap : AssuranceLevel

-- The mode, node:crypto, the verifiers (`get` throws where they cannot be built), and what JSON.parse
-- makes of a development token.
pub record Gate : Type 0 where
  pub strict : Bool
  pub crypto : NodeCrypto
  pub verifiers : Option (AndroidVerifier × IosVerifier)
  pub read_mock_token : Text → Option Json

abbrev pub rejected : {A : Type 0} → Handler A
rejected = throw attestation_rejected 403

abbrev pub unavailable : {A : Type 0} → Handler A
unavailable = throw attestation_unavailable 503

abbrev pub platform_of : String → Option Platform
platform_of p = if same p "android" then some android else if same p "ios" then some ios else none

abbrev pub platform_text : Platform → String
platform_text android = "android"
platform_text ios = "ios"

abbrev pub known_platform : Option Platform → Handler Platform
known_platform none = rejected
known_platform (some p) = pure p

-- `!attestation.nonceId`
abbrev pub given_nonce : Option String → Handler String
given_nonce none = rejected
given_nonce (some id) = if same id "" then rejected else pure id

-- `try { ... } catch { throw this.reject(...); }`
abbrev pub or_rejected : {A : Type 0} → Result Thrown A → Handler A
or_rejected (ok a) = pure a
or_rejected (err e) = rejected

unfoldable pub run_verifier : Gate → Platform → AttestationRequest → Option AttestationResult
run_verifier gate platform request = elim gate.verifiers [
  | none ↦ none
  | some (a, i) ↦ elim platform [
    | android ↦ some (verify_play_integrity gate.crypto a request)
    | ios ↦ some (verify_app_attest gate.crypto i request)
  ]
]

abbrev pub is_unavailable : AttestationRejectionCode → Bool
is_unavailable verifier_unavailable = true
is_unavailable _ = false

abbrev pub judge : Option AttestationResult → Handler AttestationAccepted
judge none = unavailable
judge (some (err code)) = if is_unavailable code then unavailable else rejected
judge (some (ok accepted)) = pure accepted

abbrev pub request_of : AttestationInput → DeviceKey → ℕ → String → AttestationRequest
request_of input device_key now expected_nonce = record {
  token = input.token;
  key_attestation = input.key_attestation;
  expected_nonce = codes expected_nonce;
  device_key = device_key;
  now = now;
}

-- With the nonce in hand.
unfoldable pub present_to_verifier :
    Gate → Platform → AttestationRequest → Handler AttestationVerdict
present_to_verifier gate platform request = do
  accepted ← judge (run_verifier gate platform request)
  pure (record {
    hardware_backed = not (is_software accepted.key_security_level);
    platform = platform_text accepted.platform;
    assurance_cap = accepted.assurance_cap;
  })

unfoldable pub verify_strict : Gate → ℕ → AttestationInput → DeviceKey → Handler AttestationVerdict
verify_strict gate now input device_key = do
  platform ← known_platform (platform_of input.platform)
  nonce_id ← given_nonce input.nonce_id
  consumed ← attempt (consume_attestation_nonce now nonce_id)
  expected_nonce ← or_rejected consumed
  present_to_verifier gate platform (request_of input device_key now expected_nonce)

-- `claims[key] === true`; to read a member of null is a TypeError.
abbrev pub claim : String → Json → Bool
claim key (object_json fs) = elim (field_of (codes key) fs) [ boolean_json b ↦ b | _ ↦ false ]
claim key _ = false

abbrev pub mock_claims : Option Json → Handler Json
mock_claims none = throw attestation_rejected 400
mock_claims (some null_json) = lift (err other_error)
mock_claims (some v) = pure v

-- A nonce that is given is consumed, whatever comes of it.
abbrev pub burn_nonce : ℕ → Option String → Handler (Unit {0})
burn_nonce now none = pure tt
burn_nonce now (some id) =
    if same id "" then pure tt else (do burnt ← attempt (consume_attestation_nonce now id); pure tt)

-- `hardwareBacked && attestation.keyAttestation`
abbrev pub is_given : Option Text → Bool
is_given none = false
is_given (some []) = false
is_given (some (c ∷ cs)) = true

unfoldable pub verify_mock : Gate → ℕ → AttestationInput → Handler AttestationVerdict
verify_mock gate now input = do
  burn_nonce now input.nonce_id
  claims ← mock_claims (gate.read_mock_token input.token)
  refuse_if (not (claim "mock" claims)) attestation_rejected 400
  refuse_if (not (claim "deviceIntegrity" claims) || not (claim "appIntegrity" claims))
      attestation_rejected 403
  pure (record {
    hardware_backed = claim "hardwareBackedKey" claims;
    platform = input.platform;
    assurance_cap =
        if claim "hardwareBackedKey" claims && is_given input.key_attestation then al2 else al1;
  })

unfoldable pub verify_attestation :
    Gate → ℕ → AttestationInput → DeviceKey → Handler AttestationVerdict
verify_attestation gate now input device_key =
    if gate.strict then verify_strict gate now input device_key else verify_mock gate now input
