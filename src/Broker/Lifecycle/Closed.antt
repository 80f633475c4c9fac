-- ===== src/Broker/Lifecycle/Closed.antt =====
-- Rows of apps/broker/src/db/schema.ts that are alone under their id and can no longer be redeemed.
use Prim.Native.String.{String}
use mathlib.Core.Path.{subst}
use sdidfy.Prelude.{
  ℕ, ◌≤◌, ◌≡◌, refl, sym, ap, ◌∙◌, Bool, true, false, ◌&&◌, ◌||◌, List, [], ◌∷◌, arith, same,
  same_iff, Bool-cases, inl, inr,
}
use sdidfy.Broker.World.{World, Transaction, TransactionStatus, consumed}
use sdidfy.Broker.Table.{update, any, count}
use sdidfy.Broker.Ciba.{is_pending, is_approved, is_taken}
use sdidfy.Broker.Lifecycle.{later, IsLifecycle}

abbrev has_id : String → Transaction → Bool
has_id id t = same t.id id

-- May still be redeemed, now or later.
abbrev is_open : TransactionStatus → Bool
is_open s = is_pending s || is_approved s

abbrev pub IsUnique : List Transaction → Type 0
IsUnique ts = (id : String) → count (has_id id) ts ≤ 1

-- The transaction is there, and no row under its id is open.
abbrev pub IsClosed : String → List Transaction → Type 0
IsClosed id ts =
    (any (has_id id) ts ≡ true) × (any (λ t. has_id id t && is_open t.status) ts ≡ false)

count-update :
    (q p : Transaction → Bool) (f : Transaction → Transaction) (ts : List Transaction)
    → ((t : Transaction) → p t ≡ true → q (f t) ≡ q t)
    → count q (update p f ts) ≡ count q ts
count-update q p f [] fine = refl
count-update q p f (t ∷ ts) fine = elim (Bool-cases (p t)) [
  | inl hit ↦ rw (hit, fine t hit, count-update q p f ts fine) refl
  | inr miss ↦ rw (miss, count-update q p f ts fine) refl
]

any-count : (q : Transaction → Bool) (ts : List Transaction) → any q ts ≡ false → count q ts ≡ 0
any-count q [] e = refl
any-count q (t ∷ ts) e =
    let tail : q t ≡ false → count q ts ≡ 0 = λ miss. any-count q ts (ground (arith, miss, e)) in
    ground (arith, e, tail)

free-count :
    (t : Transaction) (ts : List Transaction) (id : String)
    → is_taken t ts ≡ false
    → same t.id id ≡ true
    → count (has_id id) ts ≡ 0
free-count t [] id free mine = refl
free-count t (u ∷ us) id free mine =
    let rest : count (has_id id) us ≡ 0 = free-count t us id (ground (arith, free)) mine in
    ground (arith, rest, free, mine, same_iff u.id t.id, same_iff t.id id, same_iff u.id id)

pub Unique-IsLifecycle : IsLifecycle (λ ts us. IsUnique ts → IsUnique us)
Unique-IsLifecycle = record {
  stays = λ ts u. u;
  follows = λ ts us vs p q u. q (p u);
  opens = λ t ts free u id. opened t ts id free (u id);
  moves = λ p f ts fine u id.
      subst (λ (n : ℕ). n ≤ 1)
        (sym (
          count-update (has_id id) p f ts (λ t hit. ap (λ (x : String). same x id) (fine t hit).0)))
        (u id);
}
  where
    opened :
        (t : Transaction) (ts : List Transaction) (id : String)
        → is_taken t ts ≡ false
        → count (has_id id) ts ≤ 1
        → count (has_id id) (t ∷ ts) ≤ 1
    opened t ts id free u = elim (Bool-cases (same t.id id)) [
      | inl mine ↦ let none_left = free-count t ts id free mine in ground (arith, mine, none_left)
      | inr other ↦ ground (arith, other, u)
    ]

count-any : (q : Transaction → Bool) (ts : List Transaction) → count q ts ≡ 0 → any q ts ≡ false
count-any q [] e = refl
count-any q (t ∷ ts) e =
    let tail : q t ≡ false → any q ts ≡ false = λ miss. count-any q ts (ground (arith, miss, e)) in
    ground (arith, e, tail)

any-update_same :
    (q p : Transaction → Bool) (f : Transaction → Transaction) (ts : List Transaction)
    → ((t : Transaction) → p t ≡ true → q (f t) ≡ q t)
    → any q (update p f ts) ≡ any q ts
any-update_same q p f [] fine = refl
any-update_same q p f (t ∷ ts) fine = elim (Bool-cases (p t)) [
  | inl hit ↦ rw (hit, fine t hit, any-update_same q p f ts fine) refl
  | inr miss ↦ rw (miss, any-update_same q p f ts fine) refl
]

-- Where no row answers to the test, none does after an update that never makes one answer to it.
any-update_none :
    (q p : Transaction → Bool) (f : Transaction → Transaction) (ts : List Transaction)
    → ((t : Transaction) → p t ≡ true → q t ≡ false → q (f t) ≡ false)
    → any q ts ≡ false
    → any q (update p f ts) ≡ false
any-update_none q p f [] fine e = refl
any-update_none q p f (t ∷ ts) fine e =
    let head : q t ≡ false = ground (arith, e) in
    let tail : any q ts ≡ false = ground (arith, e) in
    elim (Bool-cases (p t)) [
      | inl hit ↦ rw (hit, fine t hit head) (any-update_none q p f ts fine tail)
      | inr miss ↦ rw (miss, head) (any-update_none q p f ts fine tail)
    ]

closed_later : (s r : TransactionStatus) → later s r ≡ true → is_open s ≡ false → is_open r ≡ false
closed_later s r l e = ground (arith, l, e)

pub Closed-IsLifecycle : (id : String) → IsLifecycle (λ ts us. IsClosed id ts → IsClosed id us)
Closed-IsLifecycle id = record {
  stays = λ ts c. c;
  follows = λ ts us vs p q c. q (p c);
  opens = λ t ts free c. opened t ts free c;
  moves = λ p f ts fine c. (
    any-update_same (has_id id) p f ts (λ t hit. ap (λ (x : String). same x id) (fine t hit).0)
        ∙ c.0,
    any-update_none (λ t. has_id id t && is_open t.status) p f ts
        (λ t hit shut.
          still (same t.id id) t.status (f t).status (same (f t).id id)
            (ap (λ (x : String). same x id) (fine t hit).0) (fine t hit).1 shut)
        c.1,
  );
}
  where
    opened :
        (t : Transaction) (ts : List Transaction)
        → is_taken t ts ≡ false
        → IsClosed id ts
        → IsClosed id (t ∷ ts)
    opened t ts free (there, shut) = elim (Bool-cases (same t.id id)) [
      | inl mine ↦
          let none_left = count-any (has_id id) ts (free-count t ts id free mine) in
          absurd (ground (arith, none_left, there))
      | inr other ↦ (ground (arith, other, there), ground (arith, other, shut))
    ]

    still :
        (b : Bool) (s r : TransactionStatus) (c : Bool)
        → c ≡ b
        → later s r ≡ true
        → (b && is_open s) ≡ false
        → (c && is_open r) ≡ false
    still b s r c e l shut = ground (arith, e, l, shut)

and_left : (a b : Bool) → (a && b) ≡ true → a ≡ true
and_left a b h = ground (arith, h)

none_of-and :
    (id : String) (q : TransactionStatus → Bool) (ts : List Transaction)
    → any (has_id id) ts ≡ false
    → any (λ t. has_id id t && q t.status) ts ≡ false
none_of-and id q [] e = refl
none_of-and id q (t ∷ ts) e =
    let rest = none_of-and id q ts (ground (arith, e)) in ground (arith, e, rest)

-- The statement that wins closes the transaction.
pub advance-IsClosed :
    (id : String) (ts : List Transaction)
    → count (has_id id) ts ≤ 1
    → any (λ t. same t.id id && is_approved t.status) ts ≡ true
    → IsClosed id (
        update (λ t. same t.id id && is_approved t.status) (λ t. record t { status = consumed }) ts)
advance-IsClosed id [] u won = absurd cc
advance-IsClosed id (t ∷ ts) u won = elim (Bool-cases (same t.id id)) [
  | inl mine ↦
      let alone : count (has_id id) ts ≡ 0 = ground (arith, mine, u) in
      let gone = count-any (has_id id) ts alone in
      let others = none_of-and id is_approved ts gone in
      let appr : is_approved t.status ≡ true = ground (arith, mine, others, won) in
      let quiet =
        any-update_none (λ t. has_id id t && is_open t.status)
          (λ t. same t.id id && is_approved t.status) (λ t. record t { status = consumed }) ts
          (λ t hit shut. rw (and_left (same t.id id) (is_approved t.status) hit) refl)
          (none_of-and id is_open ts gone) in
      (rw (mine, appr, mine) refl, rw (mine, appr, mine) quiet)
  | inr other ↦
      let (there, shut) =
        advance-IsClosed id ts (ground (arith, other, u)) (ground (arith, other, won)) in
      (ground (arith, other, there), ground (arith, other, shut))
]

pub lost :
    (id : String) (ts : List Transaction)
    → any (λ t. has_id id t && is_open t.status) ts ≡ false
    → any (λ t. same t.id id && is_approved t.status) ts ≡ false
lost id [] shut = refl
lost id (t ∷ ts) shut = let rest = lost id ts (ground (arith, shut)) in ground (arith, shut, rest)

abbrev pub is_winnable : String → World → Bool
is_winnable id w = any (λ t. same t.id id && is_approved t.status) w.transactions
