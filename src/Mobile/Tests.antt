-- ===== src/Mobile/Tests.antt =====
-- Runs of apps/mobile/src/core.
mod Enrol
use sdidfy.Shared.Errors.{access_denied}
use sdidfy.Shared.Protocol.{login, purpose_string}
use sdidfy.Mobile.Errors.{interrupted, protocol, is_terminal, is_session_refused}
use sdidfy.Mobile.Wire.{
  Remote, to_approve, ask_login_challenge, send_login, ask_pending, send_decision, send_revocation,
  challenge_reply, session_reply, pending_reply, revoked_reply, ask_attestation_nonce, send_start,
  send_activation, nonce_reply, activated_reply,
}
use sdidfy.Mobile.Client.{
  Phone, decide_app, require_binding, ensure_session, log_in_app, expect_payload, sign, authed,
  reset, ◌>>=◌,
}
use sdidfy.Mobile.Client.Signing.{IsMeant, decide_app-IsMeant}
use sdidfy.Mobile.Client.Once.{decisions, decide_app-once}
use Prim.Native.String.{String}
use sdidfy.Prelude.{
  ℕ, ◌≡◌, ◌≤◌, none, false, refl, ◌+◌, Bool, List, [], ◌∷◌, some, ok, err, All, ltb, if◌then◌else◌,
}
use sdidfy.Shared.Protocol.{build_challenge_payload, ciba_approve, ciba_deny}
use sdidfy.Mobile.Pending.{
  PendingTransaction, PendingGroup, collapse_pending, collapse_each, place, join_group,
  sort_by_created, group_key, is_expired, live,
}
use sdidfy.Mobile.Pending.Order.{Ascending, shown_since}
use sdidfy.Mobile.Pending.Hides.{shown, how_many, IsGroup, shown-collapse_pending}
use sdidfy.Mobile.Transport.{
  Arrival, responded, failed, timeout, safe, consumes_nonce, RetryPolicy, send_with_retry,
  attempt_from, is_retryable_status, local,
}

abbrev ask : String → String → ℕ → PendingTransaction
ask id message created = record {
  auth_req_id = id;
  rp_name = "Bank";
  binding_message = some message;
  scopes = "profile" ∷ "openid" ∷ [];
  created_at = created;
  expires_at = created + 180000;
  challenge_id = "ch";
  nonce = "n";
  approve_payload = build_challenge_payload (ciba_approve id) "ch" "n";
  deny_payload = build_challenge_payload (ciba_deny id) "ch" "n";
  challenge_expires_at = created + 120000;
}

abbrev burst : List PendingTransaction
burst = ask "b" "7Q42" 20000 ∷ ask "a" "7Q42" 0 ∷ ask "c" "9X11" 30000 ∷ ask "d" "7Q42" 70000 ∷ []

abbrev sizes : List PendingGroup → List ℕ
sizes [] = []
sizes (g ∷ gs) = g.count ∷ sizes gs

group_sizes : sizes (collapse_pending burst 100000) ≡ 2 ∷ 1 ∷ 1 ∷ []
unfolding collapse_pending collapse_each place join_group sort_by_created group_key is_expired
group_sizes = refl

shown-collapse_pending_example :
    ((p : PendingTransaction → Bool)
      → shown p (collapse_pending burst 100000) ≡ how_many p (live 100000 burst))
    × All IsGroup (collapse_pending burst 100000)
    × Ascending (shown_since (collapse_pending burst 100000))
shown-collapse_pending_example = shown-collapse_pending burst 100000

abbrev policy : RetryPolicy
policy = record {
  max_attempts = 3;
  base_delay_ms = 300;
  max_delay_ms = 4000;
  draw = λ attempt ceiling. ceiling;
}

abbrev flaky : ℕ → Arrival
flaky n =
    if ltb n 2 then failed timeout else responded (record { status = if ltb n 3 then 503 else 200 })

third_time : (send_with_retry safe policy flaky).outcome ≡ ok (record { status = 200 })
third_time = unfold send_with_retry attempt_from is_retryable_status in refl

no_second_time : (send_with_retry consumes_nonce policy flaky).outcome ≡ err (local interrupted)
no_second_time = unfold send_with_retry attempt_from in refl

-- A broker that refuses the session of every decision.
abbrev remote : Remote
remote = record {
  broker = λ sent c. elim c [
    | ask_login_challenge id ↦ ok (
        challenge_reply (record {
          challenge_id = "l1";
          nonce = "m1";
          payload = build_challenge_payload login "l1" "m1";
        }))
    | send_login id challenge_id signature ↦ ok (session_reply "token" 300)
    | ask_pending token ↦ ok (pending_reply [])
    | send_decision token auth_req_id id challenge_id decision signature report ↦
        err (protocol access_denied (some 401))
    | send_revocation token id reason ↦ ok revoked_reply
    | ask_attestation_nonce ↦ ok (nonce_reply "n1" "n")
    | send_start body ↦ err (protocol access_denied (some 403))
    | send_activation id challenge_id signature ↦ ok (activated_reply id)
  ];
  key_store = λ signed payload. ok payload;
}

abbrev enrolled : Phone
enrolled = record { session = none; binding = some "b1"; signed = []; sent = []; open_samples = 0 }

two_signatures :
    (decide_app remote 1000 (ask "a" "7Q42" 0) to_approve false enrolled).1.signed
    ≡ build_challenge_payload (ciba_approve "a") "ch" "n"
      ∷ build_challenge_payload login "l1" "m1"
      ∷ []
two_signatures =
    unfold is_terminal is_session_refused decide_app require_binding ensure_session log_in_app
      expect_payload sign authed reset build_challenge_payload purpose_string ◌>>=◌ in
    refl

decide_app-IsMeant_example :
    All
      (IsMeant (ask "a" "7Q42" 0) to_approve)
      (decide_app remote 1000 (ask "a" "7Q42" 0) to_approve false enrolled).1.signed
decide_app-IsMeant_example =
    decide_app-IsMeant remote 1000 (ask "a" "7Q42" 0) to_approve false enrolled tt

decide_app-once_example :
    decisions (decide_app remote 1000 (ask "a" "7Q42" 0) to_approve false enrolled).1.sent
    ≤ 1 + decisions enrolled.sent
decide_app-once_example = decide_app-once remote 1000 (ask "a" "7Q42" 0) to_approve false enrolled
