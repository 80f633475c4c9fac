-- ===== src/Broker/Table.antt =====
-- SQL on one table: SELECT ... WHERE with `rows[0]`, and UPDATE ... WHERE with RETURNING.
use mathlib.Core.Path.{subst}
use sdidfy.Prelude.{
  ℕ, suc, ◌≤◌, ◌≡◌, refl, sym, ap, Bool, true, false, ◌&&◌, List, [], ◌∷◌, Option, none, some,
  if◌then◌else◌, Bool-cases, inl, inr, arith,
}

module _ {R : Type 0} where
  abbrev pub first : (R → Bool) → List R → Option R
  first p [] = none
  first p (r ∷ rs) = if p r then some r else first p rs

  abbrev pub rows : (R → Bool) → List R → List R
  rows p [] = []
  rows p (r ∷ rs) = if p r then r ∷ rows p rs else rows p rs

  abbrev pub update : (R → Bool) → (R → R) → List R → List R
  update p f [] = []
  update p f (r ∷ rs) = (if p r then f r else r) ∷ update p f rs

  abbrev pub count : (R → Bool) → List R → ℕ
  count p [] = 0
  count p (r ∷ rs) = if p r then suc (count p rs) else count p rs

  abbrev pub any : (R → Bool) → List R → Bool
  any p [] = false
  any p (r ∷ rs) = if p r then true else any p rs

  pub first-holds : (p : R → Bool) (rs : List R) (r : R) → first p rs ≡ some r → p r ≡ true
  first-holds p [] r e = absurd cc
  first-holds p (s ∷ rs) r e = elim (Bool-cases (p s)) [
    | inl hit ↦ subst (λ (x : R). p x ≡ true) (found (first p rs) hit e) hit
    | inr miss ↦ first-holds p rs r (skipped (first p rs) miss e)
  ]
    where
      found : {s : R} (o : Option R) → p s ≡ true → (if p s then some s else o) ≡ some r → s ≡ r
      found o hit e = ground arith

      skipped :
          {s : R} (o : Option R) → p s ≡ false → (if p s then some s else o) ≡ some r → o ≡ some r
      skipped o miss e = ground arith

  -- The row that is found is found again after its update.
  pub first-update :
      (p : R → Bool) (f : R → R) (rs : List R) (r : R)
      → first p rs ≡ some r
      → ((s : R) → p (f s) ≡ p s)
      → first p (update p f rs) ≡ some (f r)
  first-update p f [] r e kept = absurd cc
  first-update p f (s ∷ rs) r e kept = elim (Bool-cases (p s)) [
    | inl hit ↦
        let same_row : s ≡ r = ground (arith, hit, e) in
        rw (hit, kept s, hit) (ap (λ (x : R). some (f x)) same_row)
    | inr miss ↦ rw (miss, miss) (first-update p f rs r (ground (arith, miss, e)) kept)
  ]

  -- An update that puts the rows it meets out of its own reach leaves nothing to update.
  pub any-update :
      (p : R → Bool) (f : R → R) (rs : List R)
      → ((r : R) → p r ≡ true → p (f r) ≡ false)
      → any p (update p f rs) ≡ false
  any-update p f [] out = refl
  any-update p f (r ∷ rs) out = elim (Bool-cases (p r)) [
    | inl hit ↦ rw (hit, out r hit) (any-update p f rs out)
    | inr miss ↦ rw (miss, miss) (any-update p f rs out)
  ]

  -- The row that is found has no property that none of the rows of its kind has.
  pub first-any :
      (p q : R → Bool) (rs : List R) (r : R)
      → first p rs ≡ some r
      → any (λ s. p s && q s) rs ≡ false
      → q r ≡ false
  first-any p q [] r e shut = absurd cc
  first-any p q (s ∷ rs) r e shut = elim (Bool-cases (p s)) [
    | inl hit ↦
        let same_row : s ≡ r = ground (arith, hit, e) in
        subst (λ (x : R). q x ≡ false) same_row (ground (arith, hit, shut))
    | inr miss ↦
        let rest : first p rs ≡ some r = ground (arith, miss, e) in
        first-any p q rs r rest (ground (arith, miss, shut))
  ]

  -- The one row under a key answers for the whole table.
  pub first-alone :
      (p q : R → Bool) (rs : List R) (r : R)
      → count p rs ≤ 1
      → first p rs ≡ some r
      → q r ≡ false
      → any (λ s. p s && q s) rs ≡ false
  first-alone p q [] r u e off = refl
  first-alone p q (s ∷ rs) r u e off = elim (Bool-cases (p s)) [
    | inl hit ↦
        let same_row : s ≡ r = ground (arith, hit, e) in
        let quiet : q s ≡ false = subst (λ (x : R). q x ≡ false) (sym same_row) off in
        let none_left : count p rs ≡ 0 = ground (arith, hit, u) in
        let gone = nothing p q rs none_left in rw (hit, quiet) gone
    | inr miss ↦
        let rest : first p rs ≡ some r = ground (arith, miss, e) in
        let fewer : count p rs ≤ 1 = ground (arith, miss, u) in
        rw miss (first-alone p q rs r fewer rest off)
  ]
    where
      nothing : (p q : R → Bool) (rs : List R) → count p rs ≡ 0 → any (λ s. p s && q s) rs ≡ false
      nothing p q [] e = refl
      nothing p q (s ∷ rs) e =
          let tail : p s ≡ false → any (λ s. p s && q s) rs ≡ false =
            λ miss. nothing p q rs (ground (arith, miss, e)) in
          ground (arith, e, tail)

  -- An update of all the rows of a kind takes a property away from the kind.
  pub any-update_off :
      (p q : R → Bool) (f : R → R) (rs : List R)
      → ((r : R) → q (f r) ≡ false)
      → any (λ s. p s && q s) (update p f rs) ≡ false
  any-update_off p q f [] off = refl
  any-update_off p q f (r ∷ rs) off = elim (Bool-cases (p r)) [
    | inl hit ↦
        rw (hit, off r)
          (elim (Bool-cases (p (f r))) [
            | inl still ↦ rw still (any-update_off p q f rs off)
            | inr moved ↦ rw moved (any-update_off p q f rs off)
          ])
    | inr miss ↦ rw (miss, miss) (any-update_off p q f rs off)
  ]
