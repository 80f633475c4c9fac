-- ===== src/Mobile/Client/Signing.antt =====
-- client.ts: what the key store is asked to sign, whatever the broker answers.
use Prim.Native.String.{String}
use sdidfy.Prelude.{
  ℕ, ◌≡◌, refl, Bool, true, false, ◌&&◌, ◌∷◌, Option, none, some, Result, ok, err, leb, same, All,
  Bool-cases, Option-cases, inl, inr,
}
use sdidfy.Shared.Errors.{challenge_invalid}
use sdidfy.Shared.Protocol.{ChallengePurpose, login, build_challenge_payload}
use sdidfy.Mobile.Pending.{PendingTransaction}
use sdidfy.Mobile.Errors.{MobileError, protocol, is_terminal, is_session_refused}
use sdidfy.Mobile.Wire.{
  Remote, Call, Reply, Decision, as_challenge, as_session, ask_login_challenge, send_login,
  send_decision,
}
use sdidfy.Mobile.Client.{
  App, Phone, Session, ◌>>=◌, ◌>>◌, resume_app, lift_app, call, require_binding, expect_payload,
  sign, log_in_app, forget_session, is_live_session, session_or_login, ensure_session, reset,
  after_call, attempt_call, authed, purpose_of, given_payload, refuse_stale, decide_app,
}

-- What the action has signed has the property, if all before had it.
pub record SignsOnly {A : Type 0} (P : String → Type 0) (m : App A) : Type 0 where
  pub keeps : (s : Phone) → All P s.signed → All P (m s).1.signed

-- The texts of a login, whichever challenge the broker issued.
pub data IsLoginText (payload : String) : Type 0 where
  login_text :
      (challenge_id nonce : String)
      → payload ≡ build_challenge_payload login challenge_id nonce
      → IsLoginText payload

module _ (P : String → Type 0) where
  >>=-SignsOnly :
      {A B : Type 0} {m : App A} {f : A → App B}
      → SignsOnly P m
      → ((a : A) → SignsOnly P (f a))
      → SignsOnly P (m >>= f)
  unfolding ◌>>=◌
  >>=-SignsOnly {A} {B} {m} {f} first rest = record { keeps = λ s h. go (m s) (first.keeps s h) }
    where
      go : (r : Result MobileError A × Phone) → All P r.1.signed → All P (resume_app f r).1.signed
      go (ok a, t) g = (rest a).keeps t g
      go (err e, t) g = g

  pure-SignsOnly : {A : Type 0} (r : Result MobileError A) → SignsOnly P (lift_app r)
  pure-SignsOnly r = record { keeps = λ s h. h }

  call-SignsOnly : (remote : Remote) (c : Call) → SignsOnly P (call remote c)
  call-SignsOnly remote c = record { keeps = λ s h. h }

  require_binding-SignsOnly : SignsOnly P require_binding
  unfolding require_binding
  require_binding-SignsOnly = record {
    keeps =
        λ s h. elim (Option-cases s.binding) [ inl gone ↦ rw gone h | inr (id, here) ↦ rw here h ];
  }

  -- A payload is signed after it was compared with the one that is expected.
  checked-SignsOnly :
      {B : Type 0} (remote : Remote) (purpose : ChallengePurpose)
      (challenge_id nonce given : String) {f : String → App B}
      → P (build_challenge_payload purpose challenge_id nonce)
      → ((signature : String) → SignsOnly P (f signature))
      → SignsOnly P
          (expect_payload purpose challenge_id nonce given >>= λ payload. sign remote payload >>= f)
  unfolding expect_payload ◌>>=◌ sign
  checked-SignsOnly remote purpose challenge_id nonce given {f} allowed rest = record {
    keeps = λ s h.
        let payload = build_challenge_payload purpose challenge_id nonce in
        elim (Bool-cases (same payload given)) [
          | inl fits ↦ rw fits (
              go (remote.key_store s.signed payload) (record s { signed = payload ∷ s.signed })
                (allowed, h))
          | inr differs ↦ rw differs h
        ];
  }
    where
      go :
          (r : Result MobileError String) (t : Phone)
          → All P t.signed
          → All P (resume_app f (r, t)).1.signed
      go (ok signature) t g = (rest signature).keeps t g
      go (err e) t g = g

  module _ (remote : Remote) (now : ℕ)
      (logins : (challenge_id nonce : String)
        → P (build_challenge_payload login challenge_id nonce)) where
    log_in_app-SignsOnly : SignsOnly P (log_in_app remote now)
    unfolding log_in_app
    log_in_app-SignsOnly = >>=-SignsOnly require_binding-SignsOnly λ id.
        >>=-SignsOnly (call-SignsOnly remote (ask_login_challenge id)) λ answer.
          >>=-SignsOnly (pure-SignsOnly (as_challenge answer)) λ challenge.
            checked-SignsOnly remote login challenge.challenge_id challenge.nonce challenge.payload
              (logins challenge.challenge_id challenge.nonce)
              λ signature.
                >>=-SignsOnly
                  (call-SignsOnly remote (send_login id challenge.challenge_id signature))
                  λ reply.
                    >>=-SignsOnly (pure-SignsOnly (as_session reply))
                      λ given. record { keeps = λ s h. h }

    fresh_login-SignsOnly : SignsOnly P (forget_session >> log_in_app remote now)
    fresh_login-SignsOnly =
        >>=-SignsOnly {m = forget_session} (record { keeps = λ s h. h })
          λ done. log_in_app-SignsOnly

    ensure_session-SignsOnly : SignsOnly P (ensure_session remote now)
    unfolding ensure_session
    ensure_session-SignsOnly = record { keeps = λ s h. (go s.session).keeps s h }
      where
        go : (o : Option Session) → SignsOnly P (session_or_login remote now o)
        go none = fresh_login-SignsOnly
        go (some live) = elim (Bool-cases (is_live_session now live)) [
          | inl up ↦ rw up (pure-SignsOnly (ok live.token))
          | inr over ↦ rw over fresh_login-SignsOnly
        ]

    after_call-SignsOnly :
        (is_safe : Bool) (spec : String → Call) (outcome : Result MobileError Reply)
        → SignsOnly P (after_call remote now is_safe spec outcome)
    unfolding reset
    after_call-SignsOnly is_safe spec (ok reply) = pure-SignsOnly (ok reply)
    after_call-SignsOnly is_safe spec (err e) = elim (Bool-cases (is_terminal e)) [
      | inl over ↦
          rw over
            (>>=-SignsOnly {m = reset} (record { keeps = λ s h. h }) λ done. pure-SignsOnly (err e))
      | inr alive ↦ elim (Bool-cases (is_session_refused e && is_safe)) [
        | inl again ↦
            rw (alive, again)
              (>>=-SignsOnly {m = forget_session} (record { keeps = λ s h. h })
                λ done.
                  >>=-SignsOnly ensure_session-SignsOnly
                    λ fresh. call-SignsOnly remote (spec fresh))
        | inr final ↦ rw (alive, final) (pure-SignsOnly (err e))
      ]
    ]

    authed-SignsOnly :
        (is_safe : Bool) (spec : String → Call) → SignsOnly P (authed remote now is_safe spec)
    unfolding authed
    authed-SignsOnly is_safe spec = >>=-SignsOnly ensure_session-SignsOnly λ token.
        >>=-SignsOnly {m = attempt_call remote (spec token)} (record { keeps = λ s h. h })
          λ outcome. after_call-SignsOnly is_safe spec outcome

    decide_app-SignsOnly :
        (txn : PendingTransaction) (decision : Decision) (report : Bool)
        → P (build_challenge_payload (purpose_of decision txn) txn.challenge_id txn.nonce)
        → SignsOnly P (decide_app remote now txn decision report)
    unfolding decide_app
    decide_app-SignsOnly txn decision report asked = >>=-SignsOnly require_binding-SignsOnly λ id.
        >>=-SignsOnly ensure_session-SignsOnly λ token.
          >>=-SignsOnly (refuse_stale-SignsOnly (leb txn.challenge_expires_at now)) λ fresh.
            checked-SignsOnly remote (purpose_of decision txn) txn.challenge_id txn.nonce
              (given_payload decision txn) asked
              λ signature. authed-SignsOnly false (λ token.
                send_decision token txn.auth_req_id id txn.challenge_id decision signature report)
      where
        refuse_stale-SignsOnly : (stale : Bool) → SignsOnly P (refuse_stale stale)
        refuse_stale-SignsOnly true = pure-SignsOnly (err (protocol challenge_invalid none))
        refuse_stale-SignsOnly false = pure-SignsOnly (ok tt)

-- The text of a login or of the one decision that the citizen takes on the request that is shown.
pub data IsMeant (txn : PendingTransaction) (decision : Decision) (payload : String) : Type 0 where
  for_login : IsLoginText payload → IsMeant txn decision payload
  for_decision :
      payload ≡ build_challenge_payload (purpose_of decision txn) txn.challenge_id txn.nonce
      → IsMeant txn decision payload

-- Whatever the broker answers, and whatever payloads it proposes: a decision makes the key store sign
-- nothing but the texts of logins and the text of this decision on this request, under its challenge.
pub decide_app-IsMeant :
    (remote : Remote) (now : ℕ) (txn : PendingTransaction) (decision : Decision) (report : Bool)
    (s : Phone)
    → All (IsMeant txn decision) s.signed
    → All (IsMeant txn decision) (decide_app remote now txn decision report s).1.signed
decide_app-IsMeant remote now txn decision report =
    (decide_app-SignsOnly (IsMeant txn decision) remote now
      (λ challenge_id nonce. for_login (login_text challenge_id nonce refl)) txn decision report
      (for_decision refl)).keeps
