-- ===== src/Mobile/Client/Enrol.antt =====
-- apps/mobile/src/core/client.ts: `enrol` and its checks of the device. What the platform does (keystore.ts,
-- biometrics.ts, attestation.ts) is the record Device.
pub mod Settles
pub mod Steps
pub mod Returns
use Prim.Native.String.{String}
use sdidfy.Prelude.{
  ℕ, ◌-◌, ◌+◌, ◌&&◌, ◌||◌, Bool, true, false, not, List, [], ◌∷◌, Option, none, some, Result, ok,
  err, ltb, leb, ◌==◌, length, every, if◌then◌else◌,
}
use sdidfy.Shared.Errors.{invalid_request}
use sdidfy.Shared.Assurance.{AssuranceLevel}
use sdidfy.Shared.Protocol.{activation}
use sdidfy.Attestation.Texts.{Text, codes}
use sdidfy.Broker.World.{Jwk}
use sdidfy.Broker.Attestation.{AttestationInput}
use sdidfy.Mobile.Errors.{
  MobileError, protocol, on_device, secure_hardware_unavailable, biometric_unavailable,
  biometric_not_enrolled,
}
use sdidfy.Mobile.Wire.{
  Call, Reply, Remote, StartBody, Started, ask_attestation_nonce, send_start, send_activation,
  as_nonce, as_started, as_activated,
}
use sdidfy.Mobile.Client.{
  App, ◌>>=◌, ◌>>◌, pure_app, throw_app, lift_app, call, attempt_call, expect_payload, sign,
}

pub data KeySecurityLevel : Type 0 where
  software tee strongbox : KeySecurityLevel

abbrev pub security_rank : KeySecurityLevel → ℕ
security_rank software = 0
security_rank tee = 1
security_rank strongbox = 2

pub record KeyStoreCapabilities : Type 0 where
  pub available : Bool
  pub security_level : KeySecurityLevel

pub record BiometricCapabilities : Type 0 where
  pub available : Bool
  pub enrolled : Bool
  pub strong : Bool

pub record GeneratedKey : Type 0 where
  pub public_jwk : Jwk
  pub security_level : KeySecurityLevel
  pub key_attestation : Option Text

-- An AttestationPayload with no nonceId.
pub record Attested : Type 0 where
  pub platform : String
  pub token : Text
  pub key_attestation : Option Text

-- `toDto` may throw.
pub record EnrolmentSample : Type 0 where
  pub to_dto : Result MobileError String

pub record Device : Type 0 where
  pub key_capabilities : Result MobileError KeyStoreCapabilities
  pub biometrics : Option (Result MobileError BiometricCapabilities)
  pub min_security : KeySecurityLevel
  pub generate : String → Result MobileError GeneratedKey
  pub attest : String → GeneratedKey → Result MobileError Attested
  pub capture : Result MobileError EnrolmentSample

pub record EnrolInput : Type 0 where
  pub nid : String
  pub device_label : String

-- `/^\d{16}$/`
abbrev pub is_digit : ℕ → Bool
is_digit c = leb 48 c && leb c 57

abbrev pub is_nid : String → Bool
is_nid s = (length (codes s) == 16) && every is_digit (codes s)

abbrev pub refuse_app : Bool → MobileError → App (Unit {0})
refuse_app true e = throw_app e
refuse_app false e = pure_app tt

abbrev pub assert_security_level : KeySecurityLevel → KeySecurityLevel → App (Unit {0})
assert_security_level least level =
    refuse_app (ltb (security_rank level) (security_rank least))
      (on_device secure_hardware_unavailable)

abbrev pub assert_biometrics : Option (Result MobileError BiometricCapabilities) → App (Unit {0})
assert_biometrics none = pure_app tt
assert_biometrics (some answer) = do
  caps ← lift_app answer
  refuse_app (not caps.available) (on_device biometric_unavailable)
  refuse_app (not caps.enrolled) (on_device biometric_not_enrolled)
  refuse_app (not caps.strong) (on_device biometric_unavailable)

unfoldable pub assert_device_can_enrol : Device → App (Unit {0})
assert_device_can_enrol device = do
  caps ← lift_app device.key_capabilities
  refuse_app (not caps.available) (on_device secure_hardware_unavailable)
  assert_security_level device.min_security caps.security_level
  assert_biometrics device.biometrics

-- A sample that is captured is open until `dispose`.
abbrev pub take_sample : Result MobileError EnrolmentSample → App EnrolmentSample
take_sample (ok sample) s = (ok sample, record s { open_samples = s.open_samples + 1 })
take_sample (err e) s = (err e, s)

abbrev pub dispose : App (Unit {0})
dispose s = (ok tt, record s { open_samples = s.open_samples - 1 })

-- The body is built and sent inside the `try`.
abbrev pub send_sample :
    Remote → (String → StartBody) → Result MobileError String → App (Result MobileError Reply)
send_sample remote body (ok dto) = attempt_call remote (send_start (body dto))
send_sample remote body (err e) = pure_app (err e)

-- `capture`, and the `try` with its `finally`.
unfoldable pub submit_sample :
    Remote → Result MobileError EnrolmentSample → (String → StartBody) → App Started
submit_sample remote captured body = do
  sample ← take_sample captured
  outcome ← send_sample remote body sample.to_dto
  dispose
  reply ← lift_app outcome
  lift_app (as_started reply)

abbrev pub start_body : EnrolInput → GeneratedKey → Attested → String → String → StartBody
start_body input key attested nonce_id dto = record {
  nid = input.nid;
  device_pubkey = key.public_jwk;
  attestation = record {
    platform = attested.platform;
    token = attested.token;
    key_attestation = attested.key_attestation;
    nonce_id = some nonce_id;
  };
  device_label = input.device_label;
  sample = dto;
}

abbrev pub save_binding : String → App (Unit {0})
save_binding id s = (ok tt, record s { binding = some id })

-- With the answer to the sample in hand: proof of possession, activation, and the stored binding.
unfoldable pub activate_binding : Remote → Started → App (String × AssuranceLevel)
activate_binding remote started = do
  payload ←
      expect_payload activation started.challenge.challenge_id started.challenge.nonce
        started.challenge.payload
  signature ← sign remote payload
  done ← call remote (send_activation started.binding_id started.challenge.challenge_id signature)
  id ← lift_app (as_activated done)
  save_binding id
  pure_app (id, started.assurance_level)

unfoldable pub enrol : Remote → Device → EnrolInput → App (String × AssuranceLevel)
enrol remote device input = do
  refuse_app (not (is_nid input.nid)) (protocol invalid_request none)
  assert_device_can_enrol device
  answer ← call remote ask_attestation_nonce
  challenge ← lift_app (as_nonce answer)
  key ← lift_app (device.generate challenge.1)
  assert_security_level device.min_security key.security_level
  attested ← lift_app (device.attest challenge.1 key)
  started ← submit_sample remote device.capture (start_body input key attested challenge.0)
  activate_binding remote started
