-- ===== src/Broker/Lifecycle/Requests.antt =====
-- Each request of apps/broker moves transactions only forward.
use Prim.Native.String.{String}
use sdidfy.Prelude.{
  ℕ, ◌≡◌, refl, Bool, true, false, ◌&&◌, List, Option, none, some, Result, ok, err, arith, leb,
  same, Bool-cases, inl, inr,
}
use sdidfy.Broker.World.{
  World, Binding, RelyingParty, Transaction, TransactionStatus, pending, approved, denied, expired,
  consumed,
}
use sdidfy.Broker.Table.{first}
use sdidfy.Broker.Handler.{◌>>=◌, Handler}
use sdidfy.Broker.Environment.{Environment}
use sdidfy.Broker.Challenge.{Decision, approve, deny}
use sdidfy.Broker.Reverification.{Sdid}
use sdidfy.Broker.Session.{DeviceSession}
use sdidfy.Broker.Ciba.{
  bc_authorize, BcAuthorizeRequest, decide, DecisionRequest, settle_decision, reassert_for, resolve,
  is_pending, is_approved, status_of,
}
use sdidfy.Broker.Token.{
  given, ciba_grant, look_up_approval, redeem_approval, refuse_status, advance,
}
use sdidfy.Shared.Assurance.{AssuranceLevel}
use sdidfy.Broker.Authorize.{
  authorize, authorize_poll, AuthorizeRequest, look_up_row, look_up_poll, issue_code, redeem_poll,
  CodeApproval, PollAnswer, requested_level, open_code_flow,
}
use sdidfy.Broker.Lifecycle.{
  later, IsLifecycle, Keeps, then-Keeps, idle-Keeps, open_transaction-Keeps, advance-Keeps,
}
use sdidfy.Broker.Lifecycle.Idle.{
  hit-idle, present-idle, refuse_if-idle, consume_ciba-idle, verify_device_signature-idle,
  reassert_if_due-idle, mint-idle, citizen_for_subject-idle, audit_expiry-idle,
}

module _ (T : List Transaction → List Transaction → Type 0) (laws : IsLifecycle T) where
  settle_decision-Keeps :
      (now : ℕ) (txn : Transaction) (b : Binding) (body : DecisionRequest)
      → Keeps T laws (settle_decision now txn b body)
  unfolding settle_decision ◌>>=◌
  settle_decision-Keeps now txn b body = record {
    runs = λ w.
        laws.moves (λ t. same t.id txn.id && is_pending t.status) (resolve now b.id body)
          w.transactions (λ t p. (refl, waits t p));
  }
    where
      waits :
          (t : Transaction)
          → (same t.id txn.id && is_pending t.status) ≡ true
          → later t.status (status_of body.decision) ≡ true
      waits t p = ground arith

  pub decide-Keeps :
      (env : Environment) (sdid : Sdid) (now : ℕ) (session : DeviceSession) (body : DecisionRequest)
      → Keeps T laws (decide env sdid now session body)
  unfolding decide
  decide-Keeps env sdid now session body =
      then-Keeps T laws _ _ (idle-Keeps T laws _ (λ w. refl)) (λ found.
        then-Keeps T laws _ _ (idle-Keeps T laws _ (present-idle found _ _)) (λ txn.
          then-Keeps T laws _ _ (idle-Keeps T laws _ (refuse_if-idle _ _ _)) (λ _.
            then-Keeps T laws _ _ (idle-Keeps T laws _ (λ w. refl)) (λ held.
              then-Keeps T laws _ _ (idle-Keeps T laws _ (present-idle held _ _)) (λ binding.
                then-Keeps T laws _ _ (idle-Keeps T laws _ (refuse_if-idle _ _ _)) (λ _.
                  then-Keeps T laws _ _ (idle-Keeps T laws _ (refuse_if-idle _ _ _)) (λ _.
                    then-Keeps T laws _ _
                      (idle-Keeps T laws _ (reassert_for-idle txn binding body.decision))
                      (λ _.
                        then-Keeps T laws _ _ (idle-Keeps T laws _ (consume_ciba-idle now _ _ _ _))
                          (λ payload.
                            then-Keeps T laws _ _
                              (idle-Keeps T laws _ (verify_device_signature-idle env _ payload _))
                              (λ _. settle_decision-Keeps now txn binding body))))))))))
    where
      reassert_for-idle :
          (txn : Transaction) (b : Binding) (d : Decision) (w : World)
          → (reassert_for env sdid now txn b d w).1.transactions ≡ w.transactions
      reassert_for-idle txn b approve w = reassert_if_due-idle env sdid txn.citizen_id b _ _ now w
      reassert_for-idle txn b deny w = refl

  abbrev idle :
      {A : Type 0} (m : Handler A)
      → ((w : World) → (m w).1.transactions ≡ w.transactions)
      → Keeps T laws m
  idle = idle-Keeps T laws

  pub bc_authorize-Keeps :
      (env : Environment) (now : ℕ) (rp : RelyingParty) (id auth_req_id : String)
      (body : BcAuthorizeRequest)
      → Keeps T laws (bc_authorize env now rp id auth_req_id body)
  unfolding bc_authorize
  bc_authorize-Keeps env now rp id auth_req_id body =
      then-Keeps T laws _ _ (idle _ (hit-idle now _ 60 60)) (λ _.
        then-Keeps T laws _ _ (idle _ (refuse_if-idle _ _ _)) (λ _.
          then-Keeps T laws _ _ (idle _ (refuse_if-idle _ _ _)) (λ _.
            then-Keeps T laws _ _ (idle _ (refuse_if-idle _ _ _)) (λ _.
              then-Keeps T laws _ _ (idle _ (citizen_for_subject-idle rp.id body.login_hint))
                (λ found. then-Keeps T laws _ _ (idle _ (present-idle found _ _)) (λ citizen_id.
                  then-Keeps T laws _ _ (idle _ (λ w. refl)) (λ bindings.
                    then-Keeps T laws _ _ (idle _ (refuse_if-idle _ _ _)) (λ _.
                      then-Keeps T laws _ _ (open_transaction-Keeps T laws _) (λ _.
                        then-Keeps T laws _ _ (idle _ (λ w. refl))
                          (λ _. idle _ (λ w. refl)))))))))))

  advance_consumed-Keeps : (id : String) → Keeps T laws (advance id is_approved consumed)
  advance_consumed-Keeps id = advance-Keeps T laws id is_approved consumed (λ s h. ground arith)

  refuse_status-Keeps :
      (now : ℕ) (rp_id : String) (txn : Transaction) (s : TransactionStatus)
      → Keeps T laws (refuse_status now rp_id txn s)
  refuse_status-Keeps now rp_id txn pending = elim (Bool-cases (leb txn.expires_at now)) [
    | inl over ↦ rw over (
        then-Keeps T laws _ _ (advance-Keeps T laws txn.id is_pending expired (λ s h. ground arith))
          (λ marked.
            then-Keeps T laws _ _ (idle _ (audit_expiry-idle marked rp_id txn))
              (λ _. idle _ (λ w. refl))))
    | inr early ↦ rw early (idle _ (λ w. refl))
  ]
  refuse_status-Keeps now rp_id txn approved = idle _ (λ w. refl)
  refuse_status-Keeps now rp_id txn denied = idle _ (λ w. refl)
  refuse_status-Keeps now rp_id txn expired = idle _ (λ w. refl)
  refuse_status-Keeps now rp_id txn consumed = idle _ (λ w. refl)

  look_up_approval-Keeps :
      (now : ℕ) (rp : RelyingParty) (auth_req_id : Option String)
      → Keeps T laws (look_up_approval now rp auth_req_id)
  unfolding look_up_approval
  look_up_approval-Keeps now rp auth_req_id =
      then-Keeps T laws _ _ (idle _ (present-idle (given auth_req_id) _ _)) (λ wanted.
        then-Keeps T laws _ _ (idle _ (λ w. refl)) (λ found.
          then-Keeps T laws _ _ (idle _ (present-idle found _ _)) (λ txn.
            then-Keeps T laws _ _ (idle _ (refuse_if-idle _ _ _)) (λ _.
              then-Keeps T laws _ _ (refuse_status-Keeps now rp.id txn txn.status) (λ _.
                then-Keeps T laws _ _ (idle _ (λ w. refl)) (λ held.
                  then-Keeps T laws _ _ (idle _ (present-idle held _ _))
                    (λ binding. idle _ (λ w. refl))))))))

  redeem_approval-Keeps :
      (env : Environment) (now : ℕ) (rp : RelyingParty) (grant_id : String)
      (p : Transaction × Binding)
      → Keeps T laws (redeem_approval env now rp grant_id p)
  unfolding redeem_approval
  redeem_approval-Keeps env now rp grant_id (txn, binding) =
      then-Keeps T laws _ _ (advance_consumed-Keeps txn.id) (λ won.
        then-Keeps T laws _ _ (idle _ (refuse_if-idle _ _ _)) (λ _.
          then-Keeps T laws _ _ (idle _ (mint-idle env now rp _ _ _ _ _)) (λ response.
            then-Keeps T laws _ _ (idle _ (λ w. refl)) (λ _.
              then-Keeps T laws _ _ (idle _ (λ w. refl))
                (λ _. then-Keeps T laws _ _ (idle _ (λ w. refl)) (λ _. idle _ (λ w. refl)))))))

  pub ciba_grant-Keeps :
      (env : Environment) (now : ℕ) (rp : RelyingParty) (grant_id : String)
      (auth_req_id : Option String)
      → Keeps T laws (ciba_grant env now rp grant_id auth_req_id)
  unfolding ciba_grant
  ciba_grant-Keeps env now rp grant_id auth_req_id =
      then-Keeps T laws _ _ (look_up_approval-Keeps now rp auth_req_id)
        (λ p. redeem_approval-Keeps env now rp grant_id p)

  look_up_row-idle :
      (now : ℕ) (auth_req_id : String) (found : Option Transaction) (w : World)
      → (look_up_row now auth_req_id found w).1.transactions ≡ w.transactions
  unfolding ◌>>=◌
  look_up_row-idle now auth_req_id found w = ground arith

  pub authorize_poll-Keeps :
      (env : Environment) (now : ℕ) (code : String) (txn : Option String)
      → Keeps T laws (authorize_poll env now code txn)
  unfolding authorize_poll
  authorize_poll-Keeps env now code txn =
      then-Keeps T laws _ _ (idle _ (look_up_poll-idle now txn)) (redeem_poll-Keeps env now code)
    where
      look_up_poll-idle :
          (now : ℕ) (txn : Option String) (w : World)
          → (look_up_poll now txn w).1.transactions ≡ w.transactions
      look_up_poll-idle now none w = unfold look_up_poll in refl
      look_up_poll-idle now (some id) w =
          unfold look_up_poll ◌>>=◌ in
          look_up_row-idle now id (first (λ t. same t.auth_req_id id) w.transactions) w

      issue_code-idle :
          (env : Environment) (now : ℕ) (code : String) (a : CodeApproval) (won : Bool) (w : World)
          → (issue_code env now code a won w).1.transactions ≡ w.transactions
      issue_code-idle env now code a true w = unfold ◌>>=◌ in refl
      issue_code-idle env now code a false w = refl

      redeem_poll-Keeps :
          (env : Environment) (now : ℕ) (code : String) (r : Result PollAnswer CodeApproval)
          → Keeps T laws (redeem_poll env now code r)
      redeem_poll-Keeps env now code (err answer) = unfold redeem_poll in idle _ (λ w. refl)
      redeem_poll-Keeps env now code (ok a) =
          unfold redeem_poll in
          then-Keeps T laws _ _ (advance_consumed-Keeps a.txn.id)
            (λ won. idle _ (issue_code-idle env now code a won))

  pub authorize-Keeps :
      (env : Environment) (now : ℕ) (id auth_req_id : String) (q : AuthorizeRequest)
      → Keeps T laws (authorize env now id auth_req_id q)
  unfolding authorize
  authorize-Keeps env now id auth_req_id q =
      then-Keeps T laws _ _ (idle _ (present-idle q.login_hint _ _)) (λ login_hint.
        then-Keeps T laws _ _ (idle _ (λ w. refl)) (λ found.
          then-Keeps T laws _ _ (idle _ (present-idle found _ _)) (λ rp.
            then-Keeps T laws _ _ (idle _ (refuse_if-idle _ _ _)) (λ _.
              then-Keeps T laws _ _ (idle _ (refuse_if-idle _ _ _)) (λ _.
                then-Keeps T laws _ _ (idle _ (refuse_if-idle _ _ _)) (λ _.
                  then-Keeps T laws _ _ (idle _ (refuse_if-idle _ _ _)) (λ _.
                    then-Keeps T laws _ _ (idle _ (requested_level-idle rp q.acr_values)) (λ level.
                      then-Keeps T laws _ _ (idle _ (citizen_for_subject-idle rp.id login_hint))
                        (λ citizen. open_code_flow-Keeps rp level citizen)))))))))
    where
      requested_level-idle :
          (rp : RelyingParty) (l : Option (Option AssuranceLevel)) (w : World)
          → (requested_level rp l w).1.transactions ≡ w.transactions
      requested_level-idle rp l w = unfold ◌>>=◌ in ground arith

      open_code_flow-Keeps :
          (rp : RelyingParty) (level : AssuranceLevel) (c : Option String)
          → Keeps T laws (open_code_flow env now id auth_req_id q rp level c)
      open_code_flow-Keeps rp level none = idle _ (λ w. refl)
      open_code_flow-Keeps rp level (some citizen_id) =
          then-Keeps T laws _ _ (open_transaction-Keeps T laws _) (λ _.
            then-Keeps T laws _ _ (idle _ (λ w. refl))
              (λ _. then-Keeps T laws _ _ (idle _ (λ w. refl)) (λ _. idle _ (λ w. refl))))
