-- ===== src/Broker/Lifecycle.antt =====
-- The life of a transaction of apps/broker/src/db/schema.ts, over all the requests that touch it.
pub mod Idle
pub mod Requests
pub mod Forward
pub mod Closed
pub mod SingleUse
use Prim.Native.String.{String}
use mathlib.Core.Path.{subst}
use sdidfy.Prelude.{
  ℕ, ◌≡◌, refl, sym, ap, ◌∙◌, Bool, true, false, not, ◌&&◌, ◌||◌, List, [], ◌∷◌, Option, none, some,
  Result, ok, err, arith, same, same_refl, same_iff, if◌then◌else◌, Bool-cases, inl, inr,
}
use sdidfy.Shared.Errors.{Thrown}
use sdidfy.Broker.World.{
  World, Binding, RelyingParty, Transaction, TransactionStatus, pending, approved, denied, expired,
  consumed,
}
use sdidfy.Broker.Table.{first, update, any}
use sdidfy.Broker.Handler.{Handler, Within, >>=-Within, resume, ◌>>=◌}
use sdidfy.Broker.Ciba.{is_pending, is_approved, open_transaction, is_taken}
use sdidfy.Broker.Token.{advance}

-- A status may turn into another one or stay.
abbrev pub later : TransactionStatus → TransactionStatus → Bool
later pending s = true
later approved approved = true
later approved consumed = true
later denied denied = true
later expired expired = true
later consumed consumed = true
later _ _ = false

pub later_trans :
    (a b c : TransactionStatus) → later a b ≡ true → later b c ≡ true → later a c ≡ true
later_trans a b c p q = ground arith

-- What a relation between two states of the table must allow.
pub record IsLifecycle (T : List Transaction → List Transaction → Type 0) : Type 0 where
  pub stays : (ts : List Transaction) → T ts ts
  pub follows : (ts us vs : List Transaction) → T ts us → T us vs → T ts vs
  pub opens : (t : Transaction) (ts : List Transaction) → is_taken t ts ≡ false → T ts (t ∷ ts)
  pub moves :
      (p : Transaction → Bool) (f : Transaction → Transaction) (ts : List Transaction)
      → ((t : Transaction) → p t ≡ true → ((f t).id ≡ t.id) × (later t.status (f t).status ≡ true))
      → T ts (update p f ts)

module _ (T : List Transaction → List Transaction → Type 0) (laws : IsLifecycle T) where
  pub record Keeps {A : Type 0} (m : Handler A) : Type 0 where
    pub runs : (w : World) → T w.transactions (m w).1.transactions

  pub then-Keeps :
      {A B : Type 0} (m : Handler A) (f : A → Handler B)
      → Keeps m
      → ((a : A) → Keeps (f a))
      → Keeps (m >>= f)
  then-Keeps m f first rest = record {
    runs =
        >>=-Within (λ u v. T u.transactions v.transactions)
          (λ u v w. laws.follows u.transactions v.transactions w.transactions) m f first.runs
          (λ a. (rest a).runs);
  }

  -- For a statement that leaves the table alone.
  pub idle-Keeps :
      {A : Type 0} (m : Handler A) → ((w : World) → (m w).1.transactions ≡ w.transactions) → Keeps m
  idle-Keeps m idle = record {
    runs = λ w. subst (T w.transactions) (sym (idle w)) (laws.stays w.transactions);
  }

  pub open_transaction-Keeps : (t : Transaction) → Keeps (open_transaction t)
  unfolding open_transaction
  open_transaction-Keeps t = record { runs = go }
    where
      go : (w : World) → T w.transactions (open_transaction t w).1.transactions
      go w = elim (Bool-cases (is_taken t w.transactions)) [
        | inl taken ↦ rw (open_transaction, taken) (laws.stays w.transactions)
        | inr free ↦ rw (open_transaction, free) (laws.opens t w.transactions free)
      ]

  pub advance-Keeps :
      (id : String) (from : TransactionStatus → Bool) (to : TransactionStatus)
      → ((s : TransactionStatus) → from s ≡ true → later s to ≡ true)
      → Keeps (advance id from to)
  advance-Keeps id from to forward = record {
    runs = λ w.
        laws.moves (λ t. same t.id id && from t.status) (λ t. record t { status = to })
          w.transactions
          (λ t p. (refl, forward t.status (second (same t.id id) (from t.status) p)));
  }
    where
      second : (a b : Bool) → (a && b) ≡ true → b ≡ true
      second a b p = ground arith
