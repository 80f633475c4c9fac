-- ===== src/Broker/Devices.antt =====
-- apps/broker/src/modules/devices/devices.service.ts and the push addresses of
-- apps/broker/src/push/push.service.ts.
use Prim.Native.String.{String, ◌++◌}
use sdidfy.Prelude.{
  ℕ, Bool, true, false, not, List, [], ◌∷◌, Option, none, some, Result, ok, err, if◌then◌else◌,
  same,
}
use sdidfy.Shared.Assurance.{AssuranceLevel}
use sdidfy.Shared.Errors.{
  Thrown, bridge_error, other_error, code_text, binding_not_found, binding_not_active,
}
use sdidfy.Shared.Protocol.{login}
use sdidfy.Broker.World.{Binding, BindingStatus, revoked}
use sdidfy.Broker.Table.{first, rows, update}
use sdidfy.Broker.Handler.{
  Handler, ◌>>=◌, ◌>>◌, pure, refuse_if, present, gets, modify, append, event, lift, attempt,
}
use sdidfy.Broker.Environment.{Environment}
use sdidfy.Broker.Challenge.{IssuedChallenge, issue, consume}
use sdidfy.Broker.RateLimit.{record_failure, assert_not_locked_out, clear_failures}
use sdidfy.Broker.Reverification.{Sdid, is_binding_active, reassert_if_due, revoke_with}
use sdidfy.Broker.Signature.{verify_device_signature}

abbrev pub login_max_failures : ℕ
login_max_failures = 5

abbrev pub login_failure_window_seconds : ℕ
login_failure_window_seconds = 900

abbrev pub named : String → Binding → Bool
named binding_id b = same b.id binding_id

abbrev pub load_binding : String → Handler Binding
load_binding binding_id = do
  found ← gets (λ w. first (named binding_id) w.bindings)
  present found binding_not_found 404

abbrev pub assert_active : Binding → Handler (Unit {0})
assert_active b = refuse_if (not (is_binding_active b.status)) binding_not_active 401

unfoldable pub issue_login_challenge :
    Environment → ℕ → String → String → String → Handler IssuedChallenge
issue_login_challenge env now challenge_id nonce binding_id = do
  binding ← load_binding binding_id
  assert_active binding
  assert_not_locked_out now ("login:" ++ binding_id) login_max_failures
  challenge ← issue env now challenge_id nonce login binding_id
  append (record (event "citizen" (some binding.citizen_id) "auth.challenge_issued" "success") {
    subject_ref = some binding.citizen_id;
    device_binding_id = some binding_id;
    context = ("purpose", "login" ∷ []) ∷ [];
  })
  pure challenge

pub record LoginRequest : Type 0 where
  pub binding_id : String
  pub challenge_id : String
  pub signature : String

-- The claims of the session token that is signed, and its lifetime in seconds.
pub record Session : Type 0 where
  pub sub : String
  pub binding_id : String
  pub acr : AssuranceLevel
  pub expires_in : ℕ

abbrev pub reason_of : Thrown → String
reason_of (bridge_error code http) = code_text code
reason_of other_error = "internal_error"

abbrev pub prove_possession : Environment → ℕ → LoginRequest → Binding → Handler (Unit {0})
prove_possession env now req binding = do
  payload ← consume now req.challenge_id login req.binding_id
  verify_device_signature env binding.device_pubkey payload req.signature

-- The `catch` of `login`.
abbrev pub settle_proof : ℕ → LoginRequest → Binding → Result Thrown (Unit {0}) → Handler (Unit {0})
settle_proof now req binding (ok u) = pure u
settle_proof now req binding (err e) = do
  record_failure now ("login:" ++ req.binding_id) login_max_failures login_failure_window_seconds
  append (record (event "citizen" (some binding.citizen_id) "auth.login_failed" "failure") {
    subject_ref = some binding.citizen_id;
    device_binding_id = some binding.id;
    context = ("reason", reason_of e ∷ []) ∷ [];
  })
  lift (err e)

abbrev pub touch : String → ℕ → Handler (Unit {0})
touch binding_id now = modify (λ w. record w {
  bindings = update (named binding_id) (λ b. record b { last_used_at = some now }) w.bindings;
})

unfoldable pub log_in : Environment → Sdid → ℕ → LoginRequest → Handler Session
log_in env sdid now req = do
  binding ← load_binding req.binding_id
  assert_active binding
  proof ← attempt (prove_possession env now req binding)
  settle_proof now req binding proof
  clear_failures ("login:" ++ req.binding_id)
  reassert_if_due env sdid binding.citizen_id binding false "direct-login" now
  touch binding.id now
  append (record (event "citizen" (some binding.citizen_id) "auth.login_succeeded" "success") {
    subject_ref = some binding.citizen_id;
    device_binding_id = some binding.id;
    assurance = some binding.assurance_level;
  })
  pure (record {
    sub = binding.citizen_id;
    binding_id = binding.id;
    acr = binding.assurance_level;
    expires_in = env.session_ttl;
  })

-- The order of the rows is the database's.
unfoldable pub list_bindings : String → Handler (List Binding)
list_bindings citizen_id = gets (λ w. rows (λ b. same b.citizen_id citizen_id) w.bindings)

abbrev pub is_binding_revoked : BindingStatus → Bool
is_binding_revoked revoked = true
is_binding_revoked _ = false

abbrev pub reason_or_default : Option String → String
reason_or_default none = "citizen-revoked"
reason_or_default (some reason) = reason

unfoldable pub revoke_binding : ℕ → String → String → Option String → Handler (Unit {0})
revoke_binding now citizen_id binding_id reason = do
  found ← gets (λ w. first (named binding_id) w.bindings)
  binding ← present found binding_not_found 404
  refuse_if (not (same binding.citizen_id citizen_id)) binding_not_found 404
  if is_binding_revoked binding.status then pure tt else (do
    modify (λ w. record w {
      bindings = update (named binding_id) (revoke_with now (reason_or_default reason)) w.bindings;
    })
    append (record (event "citizen" (some citizen_id) "device.revoked" "success") {
      subject_ref = some citizen_id;
      device_binding_id = some binding_id;
      context = ("reason", reason_or_default reason ∷ []) ∷ [];
    }))

-- `PushService.registerToken`, which the device backchannel reaches for the session's own binding.
unfoldable pub register_push_token : String → String → String → Handler (Unit {0})
register_push_token binding_id platform token = modify (λ w. record w {
  bindings =
      update (named binding_id)
        (λ b. record b { push_platform = some platform; push_token = some token }) w.bindings;
})

unfoldable pub remove_push_token : String → Handler (Unit {0})
remove_push_token binding_id = modify (λ w. record w {
  bindings =
      update (named binding_id) (λ b. record b { push_platform = none; push_token = none })
        w.bindings;
})
