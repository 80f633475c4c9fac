-- ===== src/Broker/Lifecycle/SingleUse.antt =====
-- An approval of apps/broker is redeemed at most once, by whichever flow.
use Prim.Native.String.{String}
use mathlib.Core.Path.{subst}
use sdidfy.Prelude.{
  ℕ, ◌≡◌, refl, sym, ◌∙◌, true, false, ◌&&◌, [], Option, ok, err, arith, err-ne-ok, ok-injective,
  same, Bool-cases, inl, inr,
}
use sdidfy.Shared.Errors.{bridge_error, invalid_grant}
use sdidfy.Broker.World.{World, Binding, RelyingParty, Transaction, consumed}
use sdidfy.Broker.Table.{update}
use sdidfy.Broker.Handler.{◌>>=◌}
use sdidfy.Broker.Environment.{Environment}
use sdidfy.Broker.Pairwise.{Tokens, mint, subject_for}
use sdidfy.Broker.Ciba.{is_approved}
use sdidfy.Broker.Token.{redeem_approval}
use sdidfy.Broker.Authorize.{redeem_poll, CodeApproval, PollAnswer, poll_denied, poll_approved}
use sdidfy.Broker.Lifecycle.Forward.{Requests, Requests-keeps}
use sdidfy.Broker.Lifecycle.Closed.{
  IsUnique, IsClosed, Unique-IsLifecycle, Closed-IsLifecycle, advance-IsClosed, lost, is_winnable,
}

module _ (env : Environment) (now : ℕ) (rp : RelyingParty) (grant_id : String) (txn : Transaction)
    (b : Binding) (w : World) where
  redeem_approval-lost :
      is_winnable txn.id w ≡ false
      → (redeem_approval env now rp grant_id (txn, b) w).0 ≡ err (bridge_error invalid_grant 400)
  unfolding redeem_approval ◌>>=◌
  redeem_approval-lost e = rw e refl

  redeem_approval-IsClosed :
      (t : Tokens)
      → IsUnique w.transactions
      → (redeem_approval env now rp grant_id (txn, b) w).0 ≡ ok t
      → IsClosed txn.id (redeem_approval env now rp grant_id (txn, b) w).1.transactions
  redeem_approval-IsClosed t u e = elim (Bool-cases (is_winnable txn.id w)) [
    | inl won ↦
        subst (IsClosed txn.id) (sym (after won))
          (advance-IsClosed txn.id w.transactions (u txn.id) won)
    | inr lost ↦ absurd (err-ne-ok (sym (redeem_approval-lost lost) ∙ e))
  ]
    where
      after :
          is_winnable txn.id w ≡ true
          → (redeem_approval env now rp grant_id (txn, b) w).1.transactions
            ≡ update
                (λ t. same t.id txn.id && is_approved t.status)
                (λ t. record t { status = consumed })
                w.transactions
      after won = unfold redeem_approval mint subject_for ◌>>=◌ in ground (arith, won)

module _ (env : Environment) (now : ℕ) (code : String) (a : CodeApproval) (w : World) where
  redeem_poll-lost :
      is_winnable a.txn.id w ≡ false → (redeem_poll env now code (ok a) w).0 ≡ ok poll_denied
  unfolding redeem_poll ◌>>=◌
  redeem_poll-lost e = rw e refl

  redeem_poll-IsClosed :
      (c : String) (state : Option String)
      → IsUnique w.transactions
      → (redeem_poll env now code (ok a) w).0 ≡ ok (poll_approved c state)
      → IsClosed a.txn.id (redeem_poll env now code (ok a) w).1.transactions
  redeem_poll-IsClosed c state u e = elim (Bool-cases (is_winnable a.txn.id w)) [
    | inl won ↦
        subst (IsClosed a.txn.id) (sym (after won))
          (advance-IsClosed a.txn.id w.transactions (u a.txn.id) won)
    | inr lost ↦ absurd (distinct (ok-injective (sym (redeem_poll-lost lost) ∙ e)))
  ]
    where
      distinct : ◌≡◌ {A = PollAnswer} poll_denied (poll_approved c state) → ⊥
      distinct e = cc

      after :
          is_winnable a.txn.id w ≡ true
          → (redeem_poll env now code (ok a) w).1.transactions
            ≡ update
                (λ t. same t.id a.txn.id && is_approved t.status)
                (λ t. record t { status = consumed })
                w.transactions
      after won = unfold redeem_poll ◌>>=◌ in rw won refl

Requests-IsUnique :
    (start w : World) → Requests start w → start.transactions ≡ [] → IsUnique w.transactions
Requests-IsUnique start w before empty =
    Requests-keeps (λ ts us. IsUnique ts → IsUnique us) Unique-IsLifecycle before
      (subst IsUnique (sym empty) (λ id. omega arith))

-- Neither flow redeems a transaction that was closed, whatever the rows that it had read before.
closed-never :
    (id : String) (u v : World) (env : Environment) (now : ℕ) (rp : RelyingParty) (name : String)
    (txn : Transaction) (b : Binding) (a : CodeApproval)
    → IsClosed id u.transactions
    → Requests u v
    → txn.id ≡ id
    → a.txn.id ≡ id
    → ((redeem_approval env now rp name (txn, b) v).0 ≡ err (bridge_error invalid_grant 400))
      × ((redeem_poll env now name (ok a) v).0 ≡ ok poll_denied)
closed-never id u v env now rp name txn b a closed between mine its =
    let (there, shut) =
      Requests-keeps (λ ts us. IsClosed id ts → IsClosed id us) (Closed-IsLifecycle id) between
        closed in
    let none_left = lost id v.transactions shut in
    (
      redeem_approval-lost env now rp name txn b v
          (subst (λ (x : String). is_winnable x v ≡ false) (sym mine) none_left),
      redeem_poll-lost env now name a v
          (subst (λ (x : String). is_winnable x v ≡ false) (sym its) none_left),
    )

-- Once tokens were minted for a transaction, no later redemption of it succeeds in either flow, not
-- even one that read the approved row before, and whatever requests ran in between.
pub redeem_approval-once :
    (start w v : World) (env env' : Environment) (now now' : ℕ) (rp rp' : RelyingParty)
    (name name' : String) (txn txn' : Transaction) (b b' : Binding) (a : CodeApproval) (t : Tokens)
    → start.transactions ≡ []
    → Requests start w
    → (redeem_approval env now rp name (txn, b) w).0 ≡ ok t
    → Requests (redeem_approval env now rp name (txn, b) w).1 v
    → txn'.id ≡ txn.id
    → a.txn.id ≡ txn.id
    → ((redeem_approval env' now' rp' name' (txn', b') v).0 ≡ err (bridge_error invalid_grant 400))
      × ((redeem_poll env' now' name' (ok a) v).0 ≡ ok poll_denied)
redeem_approval-once start w v env env' now now' rp rp' name name' txn txn' b b' a t empty before e
      between =
    closed-never txn.id (redeem_approval env now rp name (txn, b) w).1 v env' now' rp' name' txn' b'
      a
      (redeem_approval-IsClosed env now rp name txn b w t (Requests-IsUnique start w before empty)
        e)
      between

-- The same after a code was issued for the transaction.
pub redeem_poll-once :
    (start w v : World) (env env' : Environment) (now now' : ℕ) (rp' : RelyingParty)
    (code name' : String) (a a' : CodeApproval) (txn' : Transaction) (b' : Binding) (c : String)
    (state : Option String)
    → start.transactions ≡ []
    → Requests start w
    → (redeem_poll env now code (ok a) w).0 ≡ ok (poll_approved c state)
    → Requests (redeem_poll env now code (ok a) w).1 v
    → txn'.id ≡ a.txn.id
    → a'.txn.id ≡ a.txn.id
    → ((redeem_approval env' now' rp' name' (txn', b') v).0 ≡ err (bridge_error invalid_grant 400))
      × ((redeem_poll env' now' name' (ok a') v).0 ≡ ok poll_denied)
redeem_poll-once start w v env env' now now' rp' code name' a a' txn' b' c state empty before e
      between =
    closed-never a.txn.id (redeem_poll env now code (ok a) w).1 v env' now' rp' name' txn' b' a'
      (redeem_poll-IsClosed env now code a w c state (Requests-IsUnique start w before empty) e)
      between
