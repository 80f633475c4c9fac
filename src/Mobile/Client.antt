-- ===== src/Mobile/Client.antt =====
-- apps/mobile/src/core/client.ts: the session, the decisions and the end of a binding. The transport's
-- retries are in Transport.
pub mod Enrol
pub mod Runs
pub mod Signing
pub mod Once
use Prim.Native.String.{String}
use sdidfy.Prelude.{
  ℕ, ◌+◌, ◌*◌, Bool, true, false, not, ◌&&◌, List, [], ◌∷◌, Option, none, some, Result, ok, err,
  resumes, ltb, leb, ◌==◌, same, if◌then◌else◌,
}
use sdidfy.Shared.Errors.{challenge_invalid}
use sdidfy.Mobile.Errors.{
  MobileError, protocol, on_device, unexpected_response, not_enrolled, is_terminal,
  is_session_refused,
}
use sdidfy.Shared.Protocol.{
  ChallengePurpose, login, ciba_approve, ciba_deny, build_challenge_payload,
}
use sdidfy.Mobile.Pending.{PendingTransaction}
use sdidfy.Mobile.Wire.{
  Decision, to_approve, to_deny, Call, ask_login_challenge, send_login, ask_pending, send_decision,
  send_revocation, Reply, Remote, as_challenge, as_session,
}

pub record Session : Type 0 where
  pub token : String
  pub expires_at : ℕ

pub record Phone : Type 0 where
  pub session : Option Session
  pub binding : Option String
  -- What the key store was asked to sign, and the requests that were made, the newest first.
  pub signed : List String
  pub sent : List Call
  -- How many captured samples have not been disposed of.
  pub open_samples : ℕ

abbrev pub App : Type 0 → Type 0
App A = Phone → Result MobileError A × Phone

abbrev pub resume_app :
    {A B : Type 0} → (A → App B) → Result MobileError A × Phone → Result MobileError B × Phone
resume_app f out = resumes f out

infixl 5 ◌>>=◌ ◌>>◌
unfoldable pub ◌>>=◌ : {A B : Type 0} → App A → (A → App B) → App B
(m >>= f) s = resume_app f (m s)

abbrev pub ◌>>◌ : {A B : Type 0} → App A → App B → App B
m >> k = m >>= λ _. k

abbrev pub pure_app : {A : Type 0} → A → App A
pure_app a s = (ok a, s)

abbrev pub throw_app : {A : Type 0} → MobileError → App A
throw_app e s = (err e, s)

abbrev pub lift_app : {A : Type 0} → Result MobileError A → App A
lift_app r s = (r, s)

abbrev pub call : Remote → Call → App Reply
call remote c s = (remote.broker s.sent c, record s { sent = c ∷ s.sent })

unfoldable pub require_binding : App String
require_binding s = elim s.binding [
  | none ↦ (err (on_device not_enrolled), s)
  | some id ↦ (ok id, s)
]

unfoldable pub expect_payload : ChallengePurpose → String → String → String → App String
expect_payload purpose challenge_id nonce given s =
    let expected = build_challenge_payload purpose challenge_id nonce in
    if not (same expected given) then (err (on_device unexpected_response), s) else (ok expected, s)

unfoldable pub sign : Remote → String → App String
sign remote payload s =
    (remote.key_store s.signed payload, record s { signed = payload ∷ s.signed })

abbrev pub keep_session : Session → App String
keep_session live s = (ok live.token, record s { session = some live })

unfoldable pub log_in_app : Remote → ℕ → App String
log_in_app remote now = do
  id ← require_binding
  answer ← call remote (ask_login_challenge id)
  challenge ← lift_app (as_challenge answer)
  payload ← expect_payload login challenge.challenge_id challenge.nonce challenge.payload
  signature ← sign remote payload
  reply ← call remote (send_login id challenge.challenge_id signature)
  given ← lift_app (as_session reply)
  keep_session (record { token = given.0; expires_at = now + given.1 * 1000 })

abbrev pub session_skew_ms : ℕ
session_skew_ms = 30000

abbrev pub forget_session : App (Unit {0})
forget_session s = (ok tt, record s { session = none })

abbrev pub is_live_session : ℕ → Session → Bool
is_live_session now live = ltb (now + session_skew_ms) live.expires_at

abbrev pub session_or_login : Remote → ℕ → Option Session → App String
session_or_login remote now none = forget_session >> log_in_app remote now
session_or_login remote now (some live) =
    if is_live_session now live
    then pure_app live.token
    else (forget_session >> log_in_app remote now)

unfoldable pub ensure_session : Remote → ℕ → App String
ensure_session remote now s = session_or_login remote now s.session s

unfoldable pub reset : App (Unit {0})
reset s = (ok tt, record s { session = none; binding = none })

-- The `catch` of `authed`. A session that was refused is asked for anew only for a safe call.
abbrev pub after_call : Remote → ℕ → Bool → (String → Call) → Result MobileError Reply → App Reply
after_call remote now is_safe spec (ok reply) = pure_app reply
after_call remote now is_safe spec (err e) =
    if is_terminal e
    then reset >> throw_app e
    else if is_session_refused e && is_safe
    then (do forget_session; fresh ← ensure_session remote now; call remote (spec fresh))
    else throw_app e

abbrev pub attempt_call : Remote → Call → App (Result MobileError Reply)
attempt_call remote c s = (ok (call remote c s).0, (call remote c s).1)

unfoldable pub authed : Remote → ℕ → Bool → (String → Call) → App Reply
authed remote now is_safe spec = do
  token ← ensure_session remote now
  outcome ← attempt_call remote (spec token)
  after_call remote now is_safe spec outcome

abbrev pub purpose_of : Decision → PendingTransaction → ChallengePurpose
purpose_of to_approve txn = ciba_approve txn.auth_req_id
purpose_of to_deny txn = ciba_deny txn.auth_req_id

abbrev pub given_payload : Decision → PendingTransaction → String
given_payload to_approve txn = txn.approve_payload
given_payload to_deny txn = txn.deny_payload

abbrev pub refuse_stale : Bool → App (Unit {0})
refuse_stale true = throw_app (protocol challenge_invalid none)
refuse_stale false = pure_app tt

unfoldable pub decide_app : Remote → ℕ → PendingTransaction → Decision → Bool → App Reply
decide_app remote now txn decision report_suspicious = do
  id ← require_binding
  ensure_session remote now
  refuse_stale (leb txn.challenge_expires_at now)
  payload ←
      expect_payload (purpose_of decision txn) txn.challenge_id txn.nonce
        (given_payload decision txn)
  signature ← sign remote payload
  authed remote now false (λ token.
      send_decision token txn.auth_req_id id txn.challenge_id decision signature report_suspicious)

unfoldable pub pull_pending : Remote → ℕ → App Reply
pull_pending remote now = authed remote now true ask_pending

abbrev pub reset_if_current : String → App (Unit {0})
reset_if_current id s = elim s.binding [
  | none ↦ (ok tt, s)
  | some current ↦ if same current id then reset s else (ok tt, s)
]

unfoldable pub revoke_binding_app : Remote → ℕ → String → Option String → App (Unit {0})
revoke_binding_app remote now id reason = do
  authed remote now true (λ token. send_revocation token id reason)
  reset_if_current id
