-- ===== src/Mobile/Client/Once.antt =====
-- client.ts: how often a decision is sent, whatever the broker answers.
use Prim.Native.String.{String}
use sdidfy.Prelude.{
  ◌+◌, ◌≤◌, ℕ, ◌≡◌, Bool, true, false, ◌&&◌, List, [], ◌∷◌, Option, none, some, Result, ok, err,
  leb, same, arith, Bool-cases, Option-cases, inl, inr,
}
use sdidfy.Shared.Errors.{challenge_invalid}
use sdidfy.Shared.Protocol.{ChallengePurpose, login, build_challenge_payload}
use sdidfy.Mobile.Pending.{PendingTransaction}
use sdidfy.Mobile.Errors.{MobileError, protocol, is_terminal, is_session_refused}
use sdidfy.Mobile.Wire.{
  Remote, Call, Reply, Decision, as_challenge, as_session, ask_login_challenge, send_login,
  send_decision, ask_pending, send_revocation, ask_attestation_nonce, send_start, send_activation,
}
use sdidfy.Mobile.Client.{
  App, Phone, Session, ◌>>=◌, ◌>>◌, resume_app, lift_app, call, require_binding, expect_payload,
  sign, log_in_app, forget_session, is_live_session, session_or_login, ensure_session, reset,
  after_call, attempt_call, authed, purpose_of, given_payload, refuse_stale, decide_app,
}

abbrev pub is_decision : Call → ℕ
is_decision (send_decision token auth_req_id id challenge_id decision signature report) = 1
is_decision _ = 0

abbrev pub decisions : List Call → ℕ
decisions [] = 0
decisions (c ∷ cs) = is_decision c + decisions cs

-- The action sends no more than this many decisions.
pub record Decides {A : Type 0} (most : ℕ) (m : App A) : Type 0 where
  pub bound : (s : Phone) → decisions (m s).1.sent ≤ most + decisions s.sent

>>=-Decides :
    {A B : Type 0} {m : App A} {f : A → App B} (a b : ℕ)
    → Decides a m
    → ((x : A) → Decides b (f x))
    → Decides (a + b) (m >>= f)
unfolding ◌>>=◌
>>=-Decides {A} {B} {m} {f} a b first rest = record { bound = λ s. go s (m s) (first.bound s) }
  where
    go :
        (s : Phone) (r : Result MobileError A × Phone)
        → decisions r.1.sent ≤ a + decisions s.sent
        → decisions (resume_app f r).1.sent ≤ a + b + decisions s.sent
    go s (ok x, t) g = omega (arith, (rest x).bound t, g)
    go s (err e, t) g = omega (arith, g)

-- Steps that send none, one after another.
then_none :
    {A B : Type 0} {m : App A} {f : A → App B}
    → Decides 0 m
    → ((x : A) → Decides 0 (f x))
    → Decides 0 (m >>= f)
then_none first rest = >>=-Decides 0 0 first rest

then_one :
    {A B : Type 0} {m : App A} {f : A → App B}
    → Decides 0 m
    → ((x : A) → Decides 1 (f x))
    → Decides 1 (m >>= f)
then_one first rest = >>=-Decides 0 1 first rest

pure-Decides : {A : Type 0} (most : ℕ) (r : Result MobileError A) → Decides most (lift_app r)
pure-Decides most r = record { bound = λ s. omega arith }

require_binding-Decides : Decides 0 require_binding
unfolding require_binding
require_binding-Decides = record {
  bound = λ s. elim (Option-cases s.binding) [
    | inl gone ↦ rw gone (omega arith)
    | inr (id, here) ↦ rw here (omega arith)
  ];
}

expect_payload-Decides :
    (purpose : ChallengePurpose) (challenge_id nonce given : String)
    → Decides 0 (expect_payload purpose challenge_id nonce given)
unfolding expect_payload
expect_payload-Decides purpose challenge_id nonce given = record {
  bound = λ s. elim (Bool-cases (same (build_challenge_payload purpose challenge_id nonce) given)) [
    | inl fits ↦ rw fits (omega arith)
    | inr differs ↦ rw differs (omega arith)
  ];
}

sign-Decides : (remote : Remote) (payload : String) → Decides 0 (sign remote payload)
unfolding sign
sign-Decides remote payload = record { bound = λ s. omega arith }

module _ (remote : Remote) (now : ℕ) where
  log_in_app-Decides : Decides 0 (log_in_app remote now)
  unfolding log_in_app
  log_in_app-Decides = then_none require_binding-Decides λ id.
      then_none {m = call remote (ask_login_challenge id)} (record { bound = λ s. omega arith })
        λ answer. then_none (pure-Decides 0 (as_challenge answer)) λ challenge.
          then_none
            (expect_payload-Decides login challenge.challenge_id challenge.nonce challenge.payload)
            λ payload. then_none (sign-Decides remote payload) λ signature.
              then_none {m = call remote (send_login id challenge.challenge_id signature)}
                (record { bound = λ s. omega arith })
                λ reply.
                  then_none (pure-Decides 0 (as_session reply))
                    λ given. record { bound = λ s. omega arith }

  fresh_login-Decides : Decides 0 (forget_session >> log_in_app remote now)
  fresh_login-Decides =
      then_none {m = forget_session} (record { bound = λ s. omega arith })
        λ done. log_in_app-Decides

  ensure_session-Decides : Decides 0 (ensure_session remote now)
  unfolding ensure_session
  ensure_session-Decides = record { bound = λ s. (go s.session).bound s }
    where
      go : (o : Option Session) → Decides 0 (session_or_login remote now o)
      go none = fresh_login-Decides
      go (some live) = elim (Bool-cases (is_live_session now live)) [
        | inl up ↦ rw up (pure-Decides 0 (ok live.token))
        | inr over ↦ rw over fresh_login-Decides
      ]

  -- A call that is not safe is not made again.
  after_call-Decides :
      (spec : String → Call) (outcome : Result MobileError Reply)
      → Decides 0 (after_call remote now false spec outcome)
  unfolding reset
  after_call-Decides spec (ok reply) = pure-Decides 0 (ok reply)
  after_call-Decides spec (err e) = elim (Bool-cases (is_terminal e)) [
    | inl over ↦
        rw over (
          then_none {m = reset} (record { bound = λ s. omega arith })
            λ done. pure-Decides 0 (err e))
    | inr alive ↦
        let never : (is_session_refused e && false) ≡ false = ground arith in
        rw (alive, never) (pure-Decides 0 (err e))
  ]

  authed-Decides : (spec : String → Call) → Decides 1 (authed remote now false spec)
  unfolding authed
  authed-Decides spec = then_one ensure_session-Decides λ token.
      >>=-Decides {m = attempt_call remote (spec token)} 1 0
        (record { bound = λ s. omega (arith, one_at_most (spec token)) })
        λ outcome. after_call-Decides spec outcome
    where
      one_at_most : (c : Call) → is_decision c ≤ 1
      one_at_most (send_decision a b c d e f g) = omega arith
      one_at_most (ask_login_challenge a) = omega arith
      one_at_most (send_login a b c) = omega arith
      one_at_most (ask_pending a) = omega arith
      one_at_most (send_revocation a b c) = omega arith
      one_at_most ask_attestation_nonce = omega arith
      one_at_most (send_start a) = omega arith
      one_at_most (send_activation a b c) = omega arith

-- Whatever the broker and the key store answer, a decision of the citizen is sent at most once: not
-- again after a session that was refused, nor after any other error.
pub decide_app-once :
    (remote : Remote) (now : ℕ) (txn : PendingTransaction) (decision : Decision) (report : Bool)
    (s : Phone)
    → decisions (decide_app remote now txn decision report s).1.sent ≤ 1 + decisions s.sent
unfolding decide_app
decide_app-once remote now txn decision report s = decides.bound s
  where
    refuse_stale-Decides : (stale : Bool) → Decides 0 (refuse_stale stale)
    refuse_stale-Decides true = pure-Decides 0 (err (protocol challenge_invalid none))
    refuse_stale-Decides false = pure-Decides 0 (ok tt)

    decides : Decides 1 (decide_app remote now txn decision report)
    decides = then_one require_binding-Decides λ id.
        then_one (ensure_session-Decides remote now) λ token.
          then_one (refuse_stale-Decides (leb txn.challenge_expires_at now)) λ fresh.
            then_one
              (expect_payload-Decides (purpose_of decision txn) txn.challenge_id txn.nonce
                (given_payload decision txn))
              λ payload. then_one (sign-Decides remote payload) λ signature.
                authed-Decides remote now (λ token.
                  send_decision token txn.auth_req_id id txn.challenge_id decision signature report)
