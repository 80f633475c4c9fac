-- ===== src/Mobile/Pending/Order.antt =====
-- pending.ts: the order of the requests and of the groups, by the time that they were created.
use mathlib.Core.Path.{subst}
use sdidfy.Prelude.{
  ℕ, ◌≤◌, ◌≡◌, ◌⊎◌, refl, sym, ap, ◌∙◌, List, [], ◌∷◌, ◌++◌, some, leb, All, arith, Bool-cases,
  Option-cases, inl, inr, none≢some, some-injective,
}
use sdidfy.Mobile.Pending.{
  PendingTransaction, PendingGroup, insert_by_created, sort_by_created, same_ask, in_window,
  join_group, place, collapse_each, in_order,
}

abbrev pub Ascending : List ℕ → Type 0
Ascending [] = Unit {0}
Ascending (n ∷ ns) = All (λ m. n ≤ m) ns × Ascending ns

abbrev pub Descending : List ℕ → Type 0
Descending [] = Unit {0}
Descending (n ∷ ns) = All (λ m. m ≤ n) ns × Descending ns

abbrev pub created : List PendingTransaction → List ℕ
created [] = []
created (t ∷ ts) = t.created_at ∷ created ts

-- When the requests that are shown were created.
abbrev pub shown_since : List PendingGroup → List ℕ
shown_since [] = []
shown_since (g ∷ gs) = g.primary.created_at ∷ shown_since gs

All-implies : {P Q : ℕ → Type 0} (ns : List ℕ) → ((n : ℕ) → P n → Q n) → All P ns → All Q ns
All-implies [] f h = tt
All-implies (n ∷ ns) f (this, h) = (f n this, All-implies ns f h)

All-insert_by_created :
    (P : ℕ → Type 0) (t : PendingTransaction) (us : List PendingTransaction)
    → P t.created_at
    → All P (created us)
    → All P (created (insert_by_created t us))
All-insert_by_created P t [] this h = (this, tt)
All-insert_by_created P t (u ∷ us) this (first, h) =
    elim (Bool-cases (leb t.created_at u.created_at)) [
      | inl before ↦ rw before (this, (first, h))
      | inr after ↦ rw after (first, All-insert_by_created P t us this h)
    ]

insert_by_created-Ascending :
    (t : PendingTransaction) (us : List PendingTransaction)
    → Ascending (created us)
    → Ascending (created (insert_by_created t us))
insert_by_created-Ascending t [] h = (tt, tt)
insert_by_created-Ascending t (u ∷ us) (least, h) =
    elim (Bool-cases (leb t.created_at u.created_at)) [
      | inl before ↦
          let first : t.created_at ≤ u.created_at = ground (arith, before) in
          rw before
            ((first, All-implies (created us) (λ n le. omega (arith, first, le)) least), (least, h))
      | inr after ↦
          let first : u.created_at ≤ t.created_at = ground (arith, after) in
          rw after (
            All-insert_by_created (λ n. u.created_at ≤ n) t us first least,
            insert_by_created-Ascending t us h,
          )
    ]

pub sort_by_created-Ascending :
    (ts : List PendingTransaction) → Ascending (created (sort_by_created ts))
unfolding sort_by_created
sort_by_created-Ascending [] = tt
sort_by_created-Ascending (t ∷ ts) =
    insert_by_created-Ascending t (sort_by_created ts) (sort_by_created-Ascending ts)

-- A request that joins a group is not the one that is shown.
join_group-shown_since :
    (t : PendingTransaction) (gs hs : List PendingGroup)
    → join_group t gs ≡ some hs
    → shown_since hs ≡ shown_since gs
unfolding join_group
join_group-shown_since t [] hs e = absurd (none≢some e)
join_group-shown_since t (g ∷ gs) hs e = elim (Bool-cases (same_ask t g)) [
  | inl same ↦ elim (Bool-cases (in_window t g)) [
    | inl soon ↦ ap shown_since (sym (some-injective (rw (same, soon) at e)))
    | inr late ↦ absurd (none≢some (rw (same, late) at e))
  ]
  | inr other ↦ elim (Option-cases (join_group t gs)) [
    | inl nowhere ↦ absurd (none≢some (rw (other, nowhere) at e))
    | inr (ks, found) ↦
        ap shown_since (sym (some-injective (rw (other, found) at e)))
        ∙ ap (λ (ns : List ℕ). g.primary.created_at ∷ ns) (join_group-shown_since t gs ks found)
  ]
]

place-shown_since :
    (t : PendingTransaction) (gs : List PendingGroup)
    → (shown_since (place t gs) ≡ shown_since gs)
      ⊎ (shown_since (place t gs) ≡ t.created_at ∷ shown_since gs)
unfolding place
place-shown_since t gs = elim (Option-cases (join_group t gs)) [
  | inl nowhere ↦ inr (rw nowhere refl)
  | inr (hs, found) ↦ inl (rw found (join_group-shown_since t gs hs found))
]

-- No group is shown since a time after this one.
abbrev pub NoneAfter : List PendingGroup → ℕ → Type 0
NoneAfter gs n = All (λ m. m ≤ n) (shown_since gs)

pub place-NoneAfter :
    (t : PendingTransaction) (gs : List PendingGroup) (n : ℕ)
    → t.created_at ≤ n
    → NoneAfter gs n
    → NoneAfter (place t gs) n
place-NoneAfter t gs n first h = elim (place-shown_since t gs) [
  | inl kept ↦ subst (All (λ m. m ≤ n)) (sym kept) h
  | inr new ↦ subst (All (λ m. m ≤ n)) (sym new) (first, h)
]

pub place-NoneAfter-All :
    (t : PendingTransaction) (gs : List PendingGroup) (ns : List ℕ)
    → All (λ n. t.created_at ≤ n) ns
    → All (NoneAfter gs) ns
    → All (NoneAfter (place t gs)) ns
place-NoneAfter-All t gs [] first h = tt
place-NoneAfter-All t gs (n ∷ ns) (le, first) (this, h) =
    (place-NoneAfter t gs n le this, place-NoneAfter-All t gs ns first h)

place-Descending :
    (t : PendingTransaction) (gs : List PendingGroup)
    → NoneAfter gs t.created_at
    → Descending (shown_since gs)
    → Descending (shown_since (place t gs))
place-Descending t gs last h = elim (place-shown_since t gs) [
  | inl kept ↦ subst Descending (sym kept) h
  | inr new ↦ subst Descending (sym new) (last, h)
]

pub collapse_each-Descending :
    (ts : List PendingTransaction) (gs : List PendingGroup)
    → Ascending (created ts)
    → All (NoneAfter gs) (created ts)
    → Descending (shown_since gs)
    → Descending (shown_since (collapse_each ts gs))
unfolding collapse_each
collapse_each-Descending [] gs sorted last h = h
collapse_each-Descending (t ∷ ts) gs (least, sorted) (this, last) h =
    collapse_each-Descending ts (place t gs) sorted
      (place-NoneAfter-All t gs (created ts) least last) (place-Descending t gs this h)

All-snoc :
    (P : ℕ → Type 0) (hs : List PendingGroup) (g : PendingGroup)
    → All P (shown_since hs)
    → P g.primary.created_at
    → All P (shown_since (hs ++ g ∷ []))
All-snoc P [] g h this = (this, tt)
All-snoc P (e ∷ es) g (first, h) this = (first, All-snoc P es g h this)

Ascending-snoc :
    (gs : List PendingGroup) (g : PendingGroup)
    → Ascending (shown_since gs)
    → NoneAfter gs g.primary.created_at
    → Ascending (shown_since (gs ++ g ∷ []))
Ascending-snoc [] g h last = (tt, tt)
Ascending-snoc (f ∷ fs) g (least, h) (le, last) =
    (All-snoc (λ m. f.primary.created_at ≤ m) fs g least le, Ascending-snoc fs g h last)

All-in_order :
    (P : ℕ → Type 0) (gs : List PendingGroup)
    → All P (shown_since gs)
    → All P (shown_since (in_order gs))
All-in_order P [] h = tt
All-in_order P (g ∷ gs) (this, h) = All-snoc P (in_order gs) g (All-in_order P gs h) this

pub in_order-Ascending :
    (gs : List PendingGroup) → Descending (shown_since gs) → Ascending (shown_since (in_order gs))
in_order-Ascending [] h = tt
in_order-Ascending (g ∷ gs) (last, h) =
    Ascending-snoc (in_order gs) g (in_order-Ascending gs h)
      (All-in_order (λ m. m ≤ g.primary.created_at) gs last)
