-- ===== src/Broker/Enrolment.antt =====
-- apps/broker/src/modules/enrolment/enrolment.service.ts. SDID's reference biometric is an
-- argument; the anomaly signals, which are those of Anomaly, and the metrics decide nothing.
pub mod Backed
pub mod Cap
pub mod Activation
pub mod Returns
use Prim.Native.String.{String, ◌++◌}
use sdidfy.Prelude.{
  ℕ, ◌+◌, ◌*◌, Bool, true, false, not, ◌&&◌, ◌||◌, List, [], ◌∷◌, Option, none, some, Result, ok,
  err, leb, if◌then◌else◌, same,
}
use sdidfy.Shared.Assurance.{AssuranceLevel}
use sdidfy.Shared.Errors.{
  Thrown, bridge_error, other_error, invalid_request, enrolment_failed, sdid_unavailable,
  binding_not_found, binding_not_active,
}
use sdidfy.Shared.Protocol.{activation}
use sdidfy.MatchEngine.{BiometricSample, BiometricReference, MatchResult, match}
use sdidfy.Broker.World.{
  World, Citizen, citizen_active, Binding, BindingStatus, awaiting_activation, active, revoked, Jwk,
}
use sdidfy.Broker.Table.{first, update, any, count}
use sdidfy.Broker.Handler.{
  Handler, ◌>>=◌, ◌>>◌, pure, throw, refuse_if, present, gets, modify, append, event, lift, attempt,
}
use sdidfy.Broker.Environment.{Environment}
use sdidfy.Attestation.Texts.{codes}
use sdidfy.Attestation.Verdict.{DeviceKey}
use sdidfy.Broker.Attestation.{AttestationInput, AttestationVerdict, Gate, verify_attestation}
use sdidfy.Broker.Challenge.{IssuedChallenge, issue, consume, issue_attestation_nonce}
use sdidfy.Broker.RateLimit.{hit, record_failure, assert_not_locked_out}
use sdidfy.Broker.Devices.{named, is_binding_revoked}
use sdidfy.Broker.Signature.{verify_device_signature}

abbrev pub max_active_bindings : ℕ
max_active_bindings = 5

abbrev pub enrol_max_failures : ℕ
enrol_max_failures = 5

abbrev pub enrol_failure_window_seconds : ℕ
enrol_failure_window_seconds = 900

unfoldable pub attestation_challenge :
    Environment → ℕ → String → String → String → Handler (String × (String × ℕ))
attestation_challenge env now ip nonce_id nonce = do
  hit now ("enrol:attest:ip:" ++ ip) 60 3600
  issued ← issue_attestation_nonce env now nonce_id nonce
  append (record (event "citizen" none "auth.challenge_issued" "success") {
    context = ("purpose", "attestation" ∷ []) ∷ ("nonceId", nonce_id ∷ []) ∷ [];
  })
  pure issued

pub record StartRequest : Type 0 where
  pub pseudo_nid : String
  pub ip : String
  pub attestation : AttestationInput
  pub device_pubkey : Jwk
  pub device_label : String
  pub is_fingerprint : Bool
  pub sample : BiometricSample

-- What SDID answers to the request for the reference.
pub data ReferenceAnswer : Type 0 where
  reference_found : BiometricReference → String → String → ReferenceAnswer
  identity_unknown identity_unavailable answer_failed : ReferenceAnswer

-- The error that is thrown is returned, as in the source.
abbrev pub fail_enrolment : ℕ → String → String → Option String → Handler Thrown
fail_enrolment now pseudo_nid reason sdid_txn_ref = do
  append (record (event "citizen" none "enrolment.failed" "failure") {
    subject_ref = some pseudo_nid;
    sdid_txn_ref = sdid_txn_ref;
    context = ("reason", reason ∷ []) ∷ [];
  })
  record_failure now ("enrol:nid:" ++ pseudo_nid) enrol_max_failures enrol_failure_window_seconds
  pure (bridge_error enrolment_failed 403)

abbrev pub fail_with : {A : Type 0} → Handler Thrown → Handler A
fail_with m = do e ← m; lift (err e)

-- The key whose attestation is asked for is the one that will be bound.
abbrev pub device_key_of : Jwk → DeviceKey
device_key_of jwk = record {
  kty = codes jwk.kty;
  crv = codes jwk.crv;
  x = codes jwk.x;
  y = codes jwk.y;
}

abbrev pub check_attestation :
    String → Result Thrown AttestationVerdict → Handler AttestationVerdict
check_attestation pseudo_nid (ok verdict) = pure verdict
check_attestation pseudo_nid (err e) = do
  append (record (event "citizen" none "enrolment.failed" "failure") {
    subject_ref = some pseudo_nid;
    context = ("reason", "attestation_rejected" ∷ []) ∷ [];
  })
  lift (err e)

-- The reference, the subject and the transaction at SDID.
abbrev pub obtain_reference :
    ℕ → String → ReferenceAnswer → Handler (BiometricReference × (String × String))
obtain_reference now pseudo_nid (reference_found r subject txn_ref) = pure (r, (subject, txn_ref))
obtain_reference now pseudo_nid identity_unknown =
    fail_with (fail_enrolment now pseudo_nid "sdid_identity_not_matchable" none)
obtain_reference now pseudo_nid identity_unavailable = throw sdid_unavailable 503
obtain_reference now pseudo_nid answer_failed = lift (err other_error)

abbrev pub is_proved : MatchResult → Bool
is_proved m = m.matched && m.pad_passed

abbrev pub judge_match : ℕ → String → String → MatchResult → Handler (Unit {0})
judge_match now pseudo_nid txn_ref m = do
  append
      (record (event "citizen" none "enrolment.match_completed"
        (if is_proved m then "success" else "failure")) {
          subject_ref = some pseudo_nid;
          sdid_txn_ref = some txn_ref;
        })
  if is_proved m
      then pure tt
      else fail_with (
          fail_enrolment now pseudo_nid (if m.pad_passed then "match_failed" else "pad_failed")
            (some txn_ref))

-- INSERT ... ON CONFLICT (pseudo_nid) DO UPDATE SET sdid_subject, RETURNING id.
abbrev pub has_pseudo_nid : String → Citizen → Bool
has_pseudo_nid pseudo_nid c = same c.pseudo_nid pseudo_nid

abbrev pub upsert_citizen : String → String → String → Handler String
upsert_citizen id pseudo_nid subject w = elim (first (has_pseudo_nid pseudo_nid) w.citizens) [
  | none ↦ (
    ok id,
    record w {
      citizens =
          record {
            id = id;
            pseudo_nid = pseudo_nid;
            sdid_subject = some subject;
            status = citizen_active;
          }
          ∷ w.citizens;
    },
  )
  | some c ↦ (
    ok c.id,
    record w {
      citizens =
          update (has_pseudo_nid pseudo_nid) (λ d. record d { sdid_subject = some subject })
            w.citizens;
    },
  )
]

-- `and(eq(citizenId), ne(status, 'revoked'))`
abbrev pub counts_for : String → Binding → Bool
counts_for citizen_id b = same b.citizen_id citizen_id && not (is_binding_revoked b.status)

abbrev pub refuse_full : String → Bool → Handler (Unit {0})
refuse_full citizen_id false = pure tt
refuse_full citizen_id true = do
  append (record (event "citizen" (some citizen_id) "enrolment.failed" "failure") {
    subject_ref = some citizen_id;
    context = ("reason", "device_limit_reached" ∷ []) ∷ [];
  })
  throw invalid_request 409

abbrev pub new_binding : ℕ → String → String → StartRequest → AssuranceLevel → Binding
new_binding now binding_id citizen_id req cap = record {
  id = binding_id;
  citizen_id = citizen_id;
  device_pubkey = req.device_pubkey;
  assurance_level = cap;
  status = awaiting_activation;
  device_label = req.device_label;
  enrolled_at = now;
  activated_at = none;
  last_used_at = none;
  last_reasserted_at = none;
  revoked_at = none;
  revoke_reason = none;
  push_platform = none;
  push_token = none;
}

-- The cap on devices is a SELECT and the new binding is an INSERT: another request may run in between.
unfoldable pub check_cap : String → Handler (Unit {0})
check_cap citizen_id = do
  held ← gets (λ w. count (counts_for citizen_id) w.bindings)
  refuse_full citizen_id (leb max_active_bindings held)

unfoldable pub add_binding :
    ℕ → String → String → StartRequest → AssuranceLevel → String → Handler (Unit {0})
add_binding now binding_id citizen_id req cap txn_ref = do
  modify (λ w. record w { bindings = new_binding now binding_id citizen_id req cap ∷ w.bindings })
  append (record (event "citizen" (some citizen_id) "enrolment.binding_created" "success") {
    subject_ref = some citizen_id;
    device_binding_id = some binding_id;
    assurance = some cap;
    sdid_txn_ref = some txn_ref;
  })

unfoldable pub create_binding :
    ℕ → String → String → StartRequest → AssuranceLevel → String → Handler (Unit {0})
unfolding check_cap add_binding
create_binding now binding_id citizen_id req cap txn_ref = do
  check_cap citizen_id
  add_binding now binding_id citizen_id req cap txn_ref

pub record FreshNames : Type 0 where
  pub citizen_id : String
  pub binding_id : String
  pub challenge_id : String
  pub nonce : String

unfoldable pub start :
    Environment
    → Gate
    → ℕ
    → FreshNames
    → StartRequest
    → ReferenceAnswer
    → Handler (AssuranceLevel × IssuedChallenge)
unfolding create_binding
start env gate now fresh req answer = do
  hit now ("enrol:nid:" ++ req.pseudo_nid) 5 3600
  hit now ("enrol:ip:" ++ req.ip) 20 3600
  assert_not_locked_out now ("enrol:nid:" ++ req.pseudo_nid) enrol_max_failures
  tried ← attempt (verify_attestation gate now req.attestation (device_key_of req.device_pubkey))
  verdict ← check_attestation req.pseudo_nid tried
  refuse_if req.is_fingerprint invalid_request 400
  reference ← obtain_reference now req.pseudo_nid answer
  judge_match now req.pseudo_nid reference.1.1 (match req.sample reference.0).0
  citizen_id ← upsert_citizen fresh.citizen_id req.pseudo_nid reference.1.0
  create_binding now fresh.binding_id citizen_id req verdict.assurance_cap reference.1.1
  challenge ← issue env now fresh.challenge_id fresh.nonce activation fresh.binding_id
  pure (verdict.assurance_cap, challenge)

pub record ActivateRequest : Type 0 where
  pub binding_id : String
  pub challenge_id : String
  pub signature : String

abbrev pub is_awaiting : BindingStatus → Bool
is_awaiting awaiting_activation = true
is_awaiting _ = false

unfoldable pub activate : Environment → ℕ → ActivateRequest → Handler (Unit {0})
activate env now req = do
  found ← gets (λ w. first (named req.binding_id) w.bindings)
  binding ← present found binding_not_found 404
  refuse_if (not (is_awaiting binding.status)) binding_not_active 409
  payload ← consume now req.challenge_id activation req.binding_id
  verify_device_signature env binding.device_pubkey payload req.signature
  modify (λ w. record w {
    bindings =
        update (named req.binding_id) (λ b. record b { status = active; activated_at = some now })
          w.bindings;
  })
  append
      (record (event "citizen" (some binding.citizen_id) "enrolment.binding_activated" "success") {
        subject_ref = some binding.citizen_id;
        device_binding_id = some binding.id;
        assurance = some binding.assurance_level;
      })
