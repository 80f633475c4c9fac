-- ===== src/Mobile/Pending/Hides.antt =====
-- pending.ts: the requests of a list and those of its groups.
use sdidfy.Prelude.{
  ℕ, suc, ◌+◌, ◌≡◌, ◌≤◌, refl, sym, ap, ◌∙◌, Bool, true, false, List, [], ◌∷◌, ◌++◌, some, leb, All,
  arith, Bool-cases, Option-cases, inl, inr, length, length-append, none≢some, some-injective,
}
use mathlib.Core.Path.{subst}
use sdidfy.Attestation.Texts.{same_text}
use sdidfy.Mobile.Pending.Order.{
  Ascending, created, shown_since, sort_by_created-Ascending, NoneAfter, place-NoneAfter-All,
  collapse_each-Descending, in_order-Ascending,
}
use sdidfy.Mobile.Pending.{
  PendingTransaction, PendingGroup, group_key, live, insert_by_created, sort_by_created, same_ask,
  in_window, push, new_group, join_group, place, collapse_each, in_order, collapse_pending,
  duplicate_window_ms,
}

abbrev pub one : Bool → ℕ
one true = 1
one false = 0

abbrev pub how_many : (PendingTransaction → Bool) → List PendingTransaction → ℕ
how_many p [] = 0
how_many p (t ∷ ts) = one (p t) + how_many p ts

abbrev pub shown : (PendingTransaction → Bool) → List PendingGroup → ℕ
shown p [] = 0
shown p (g ∷ gs) = one (p g.primary) + how_many p g.duplicates + shown p gs

-- The number on the screen is right, and the duplicates are repeats of the ask that is shown.
abbrev Repeats : PendingGroup → PendingTransaction → Type 0
Repeats g t =
    (same_text (group_key g.primary) (group_key t) ≡ true)
    × (g.primary.created_at ≤ t.created_at)
    × (t.created_at ≤ g.primary.created_at + duplicate_window_ms)

pub record IsGroup (g : PendingGroup) : Type 0 where
  pub counted : g.count ≡ suc (length g.duplicates)
  pub repeats : All (Repeats g) g.duplicates

All-append_one :
    (P : PendingTransaction → Type 0) (ts : List PendingTransaction) (t : PendingTransaction)
    → All P ts
    → P t
    → All P (ts ++ t ∷ [])
All-append_one P [] t h last = (last, tt)
All-append_one P (u ∷ us) t (first, h) last = (first, All-append_one P us t h last)

push-IsGroup :
    (t : PendingTransaction) (g : PendingGroup)
    → same_ask t g ≡ true
    → in_window t g ≡ true
    → g.primary.created_at ≤ t.created_at
    → IsGroup g
    → IsGroup (push t g)
push-IsGroup t g same soon after h = record {
  counted = omega (arith, h.counted, length-append g.duplicates (t ∷ []));
  repeats = All-append_one (Repeats g) g.duplicates t h.repeats (same, after, ground (arith, soon));
}

new_group-IsGroup : (t : PendingTransaction) → IsGroup (new_group t)
new_group-IsGroup t = record { counted = refl; repeats = tt }

join_group-IsGroup :
    (t : PendingTransaction) (gs hs : List PendingGroup)
    → join_group t gs ≡ some hs
    → NoneAfter gs t.created_at
    → All IsGroup gs
    → All IsGroup hs
unfolding join_group
join_group-IsGroup t [] hs e last all = absurd (none≢some e)
join_group-IsGroup t (g ∷ gs) hs e (after, last) (this, all) = elim (Bool-cases (same_ask t g)) [
  | inl same ↦ elim (Bool-cases (in_window t g)) [
    | inl soon ↦
        subst (All IsGroup) (some-injective (rw (same, soon) at e))
          (push-IsGroup t g same soon after this, all)
    | inr late ↦ absurd (none≢some (rw (same, late) at e))
  ]
  | inr other ↦ elim (Option-cases (join_group t gs)) [
    | inl nowhere ↦ absurd (none≢some (rw (other, nowhere) at e))
    | inr (ks, found) ↦
        subst (All IsGroup) (some-injective (rw (other, found) at e))
          (this, join_group-IsGroup t gs ks found last all)
  ]
]

place-IsGroup :
    (t : PendingTransaction) (gs : List PendingGroup)
    → NoneAfter gs t.created_at
    → All IsGroup gs
    → All IsGroup (place t gs)
unfolding place
place-IsGroup t gs last all = elim (Option-cases (join_group t gs)) [
  | inl nowhere ↦ rw nowhere (new_group-IsGroup t, all)
  | inr (hs, found) ↦ rw found (join_group-IsGroup t gs hs found last all)
]

collapse_each-IsGroup :
    (ts : List PendingTransaction) (gs : List PendingGroup)
    → Ascending (created ts)
    → All (NoneAfter gs) (created ts)
    → All IsGroup gs
    → All IsGroup (collapse_each ts gs)
unfolding collapse_each
collapse_each-IsGroup [] gs sorted last all = all
collapse_each-IsGroup (t ∷ ts) gs (least, sorted) (this, last) all =
    collapse_each-IsGroup ts (place t gs) sorted (place-NoneAfter-All t gs (created ts) least last)
      (place-IsGroup t gs this all)

All-snoc :
    (gs : List PendingGroup) (g : PendingGroup)
    → All IsGroup gs
    → IsGroup g
    → All IsGroup (gs ++ g ∷ [])
All-snoc [] g h last = (last, tt)
All-snoc (f ∷ fs) g (first, h) last = (first, All-snoc fs g h last)

in_order-IsGroup : (gs : List PendingGroup) → All IsGroup gs → All IsGroup (in_order gs)
in_order-IsGroup [] h = tt
in_order-IsGroup (g ∷ gs) (this, h) = All-snoc (in_order gs) g (in_order-IsGroup gs h) this

-- However the requests are selected, as many stand in the groups as in the list.
module _ (p : PendingTransaction → Bool) where
  how_many-append :
      (ts us : List PendingTransaction) → how_many p (ts ++ us) ≡ how_many p ts + how_many p us
  how_many-append [] us = omega arith
  how_many-append (t ∷ ts) us = omega (arith, how_many-append ts us)

  shown-append : (gs hs : List PendingGroup) → shown p (gs ++ hs) ≡ shown p gs + shown p hs
  shown-append [] hs = omega arith
  shown-append (g ∷ gs) hs = omega (arith, shown-append gs hs)

  shown-in_order : (gs : List PendingGroup) → shown p (in_order gs) ≡ shown p gs
  shown-in_order [] = refl
  shown-in_order (g ∷ gs) = omega (arith, shown-append (in_order gs) (g ∷ []), shown-in_order gs)

  how_many-insert_by_created :
      (t : PendingTransaction) (us : List PendingTransaction)
      → how_many p (insert_by_created t us) ≡ one (p t) + how_many p us
  how_many-insert_by_created t [] = refl
  how_many-insert_by_created t (u ∷ us) = elim (Bool-cases (leb t.created_at u.created_at)) [
    | inl before ↦ rw before refl
    | inr after ↦ rw after (omega (arith, how_many-insert_by_created t us))
  ]

  how_many-sort_by_created :
      (ts : List PendingTransaction) → how_many p (sort_by_created ts) ≡ how_many p ts
  unfolding sort_by_created
  how_many-sort_by_created [] = refl
  how_many-sort_by_created (t ∷ ts) =
      how_many-insert_by_created t (sort_by_created ts)
      ∙ ap (λ (n : ℕ). one (p t) + n) (how_many-sort_by_created ts)

  shown-join_group :
      (t : PendingTransaction) (gs hs : List PendingGroup)
      → join_group t gs ≡ some hs
      → shown p hs ≡ one (p t) + shown p gs
  unfolding join_group
  shown-join_group t [] hs e = absurd (none≢some e)
  shown-join_group t (g ∷ gs) hs e = elim (Bool-cases (same_ask t g)) [
    | inl same ↦ elim (Bool-cases (in_window t g)) [
      | inl soon ↦
          ap (shown p) (sym (some-injective (rw (same, soon) at e)))
          ∙ omega (arith, how_many-append g.duplicates (t ∷ []))
      | inr late ↦ absurd (none≢some (rw (same, late) at e))
    ]
    | inr other ↦ elim (Option-cases (join_group t gs)) [
      | inl nowhere ↦ absurd (none≢some (rw (other, nowhere) at e))
      | inr (ks, found) ↦
          ap (shown p) (sym (some-injective (rw (other, found) at e)))
          ∙ omega (arith, shown-join_group t gs ks found)
    ]
  ]

  shown-place :
      (t : PendingTransaction) (gs : List PendingGroup)
      → shown p (place t gs) ≡ one (p t) + shown p gs
  unfolding place
  shown-place t gs = elim (Option-cases (join_group t gs)) [
    | inl nowhere ↦ rw nowhere (omega arith)
    | inr (hs, found) ↦ rw found (shown-join_group t gs hs found)
  ]

  shown-collapse_each :
      (ts : List PendingTransaction) (gs : List PendingGroup)
      → shown p (collapse_each ts gs) ≡ how_many p ts + shown p gs
  unfolding collapse_each
  shown-collapse_each [] gs = omega arith
  shown-collapse_each (t ∷ ts) gs =
      omega (arith, shown-collapse_each ts (place t gs), shown-place t gs)

-- Every request that has not expired stands in the groups of the screen, as often as it is in the list,
-- and no other. In each group the number is that of its requests, and each duplicate has the key of the
-- request that is shown and came with it or after it, at most a minute later; so the oldest is shown. The
-- groups stand in the order in which the requests that are shown came.
pub shown-collapse_pending :
    (txns : List PendingTransaction) (now : ℕ)
    → ((p : PendingTransaction → Bool)
        → shown p (collapse_pending txns now) ≡ how_many p (live now txns))
      × All IsGroup (collapse_pending txns now)
      × Ascending (shown_since (collapse_pending txns now))
unfolding collapse_pending
shown-collapse_pending txns now =
    let sorted = sort_by_created (live now txns) in
    let ascending = sort_by_created-Ascending (live now txns) in
    let none_yet = All-true (created sorted) in
    (
      λ p. omega (
        arith,
        shown-in_order p (collapse_each sorted []),
        shown-collapse_each p sorted [],
        how_many-sort_by_created p (live now txns),
      ),
      in_order-IsGroup (collapse_each sorted [])
          (collapse_each-IsGroup sorted [] ascending none_yet tt),
      in_order-Ascending (collapse_each sorted [])
          (collapse_each-Descending sorted [] ascending none_yet tt),
    )
  where
    All-true : (ns : List ℕ) → All (NoneAfter []) ns
    All-true [] = tt
    All-true (n ∷ ns) = (tt, All-true ns)
