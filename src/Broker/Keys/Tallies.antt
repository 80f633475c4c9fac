-- ===== src/Broker/Keys/Tallies.antt =====
-- keys.service.ts: what the operations on the map of tallies do to each key.
use Prim.Native.String.{String}
use sdidfy.Prelude.{
  ◌≡◌, refl, sym, ap, ◌∙◌, Option, none, some, [], ◌∷◌, same, same_iff, if◌then◌else◌, arith,
  Bool-cases, inl, inr,
}
use sdidfy.Broker.Keys.{
  TallyField, UsageTally, Usage, usage_of, set_usage, delete_usage, or_none, increment, tally,
  is_spent, minus, take_off, subtract,
}

-- No key stands twice.
abbrev pub IsMap : Usage → Type 0
IsMap [] = Unit {0}
IsMap ((k, t) ∷ u) = (usage_of k u ≡ none) × IsMap u

pub usage_of-set_usage :
    (k j : String) (t : UsageTally) (u : Usage)
    → usage_of j (set_usage k t u) ≡ (if same k j then some t else usage_of j u)
unfolding usage_of set_usage
usage_of-set_usage k j t [] = refl
usage_of-set_usage k j t ((i, old) ∷ u) =
    ground (arith, same_iff k j, same_iff i k, same_iff i j, usage_of-set_usage k j t u)

pub usage_of-delete_usage :
    (k j : String) (u : Usage)
    → usage_of j (delete_usage k u) ≡ (if same k j then none else usage_of j u)
unfolding usage_of delete_usage
usage_of-delete_usage k j [] = ground arith
usage_of-delete_usage k j ((i, old) ∷ u) =
    ground (arith, same_iff k j, same_iff i k, same_iff i j, usage_of-delete_usage k j u)

pub set_usage-IsMap : (k : String) (t : UsageTally) (u : Usage) → IsMap u → IsMap (set_usage k t u)
unfolding set_usage
set_usage-IsMap k t [] h = (unfold usage_of in refl, tt)
set_usage-IsMap k t ((i, old) ∷ u) (fresh, h) = elim (Bool-cases (same i k)) [
  | inl hit ↦ rw hit (fresh, h)
  | inr miss ↦ rw miss (
    ground (arith, same_iff i k, same_iff k i, usage_of-set_usage k i t u, fresh, miss),
    set_usage-IsMap k t u h,
  )
]

delete_usage-IsMap : (k : String) (u : Usage) → IsMap u → IsMap (delete_usage k u)
unfolding delete_usage
delete_usage-IsMap k [] h = tt
delete_usage-IsMap k ((i, old) ∷ u) (fresh, h) = elim (Bool-cases (same i k)) [
  | inl hit ↦ rw hit (delete_usage-IsMap k u h)
  | inr miss ↦ rw miss (
    ground (arith, usage_of-delete_usage k i u, fresh, same_iff k i, same_iff i k, miss),
    delete_usage-IsMap k u h,
  )
]

pub tally-IsMap : (k : String) (f : TallyField) (u : Usage) → IsMap u → IsMap (tally k f u)
unfolding tally
tally-IsMap k f u h = set_usage-IsMap k (increment f (or_none (usage_of k u))) u h

-- What is left of a tally when some of it has been reported.
abbrev pub left : Option UsageTally → UsageTally → Option UsageTally
left none reported = none
left (some t) reported = if is_spent (minus t reported) then none else some (minus t reported)

abbrev pub reduced : Option UsageTally → Option UsageTally → Option UsageTally
reduced o none = o
reduced o (some reported) = left o reported

take_off_lem :
    (k j : String) (r : UsageTally) (o : Option UsageTally) (u : Usage)
    → usage_of k u ≡ o
    → usage_of j (take_off k r o u) ≡ (if same k j then left o r else usage_of j u)
take_off_lem k j r none u e = elim (Bool-cases (same k j)) [
  | inl hit ↦
      let one : k ≡ j = (same_iff k j).0 hit in
      rw hit (ap (λ (x : String). usage_of x u) (sym one) ∙ e)
  | inr miss ↦ rw miss refl
]
take_off_lem k j r (some t) u e = elim (Bool-cases (is_spent (minus t r))) [
  | inl spent ↦ rw (spent, usage_of-delete_usage k j u) refl
  | inr kept ↦ rw (kept, usage_of-set_usage k j (minus t r) u) refl
]

take_off-IsMap :
    (k : String) (r : UsageTally) (o : Option UsageTally) (u : Usage)
    → IsMap u
    → IsMap (take_off k r o u)
take_off-IsMap k r none u h = h
take_off-IsMap k r (some t) u h = elim (Bool-cases (is_spent (minus t r))) [
  | inl spent ↦ rw spent (delete_usage-IsMap k u h)
  | inr kept ↦ rw kept (set_usage-IsMap k (minus t r) u h)
]

-- What was reported is taken off each key of it, and no other.
pub usage_of-subtract :
    (j : String) (keys u : Usage)
    → IsMap keys
    → usage_of j (subtract keys u) ≡ reduced (usage_of j u) (usage_of j keys)
unfolding subtract usage_of
usage_of-subtract j [] u h = refl
usage_of-subtract j ((k, r) ∷ keys) u (fresh, h) =
    let after = take_off k r (usage_of k u) u in
    let step = take_off_lem k j r (usage_of k u) u refl in
    let rest = usage_of-subtract j keys after h in
    elim (Bool-cases (same k j)) [
      | inl hit ↦
          let one : k ≡ j = (same_iff k j).0 hit in
          let gone : usage_of j keys ≡ none =
            ap (λ (x : String). usage_of x keys) (sym one) ∙ fresh in
          let here : usage_of j after ≡ left (usage_of j u) r =
            step ∙ rw hit (ap (λ (x : String). left (usage_of x u) r) one) in
          rest ∙ ap (reduced (usage_of j after)) gone ∙ here ∙ rw hit refl
      | inr miss ↦
          let there : usage_of j after ≡ usage_of j u = step ∙ rw miss refl in
          rest ∙ ap (λ (o : Option UsageTally). reduced o (usage_of j keys)) there ∙ rw miss refl
    ]

pub subtract-IsMap : (keys u : Usage) → IsMap u → IsMap (subtract keys u)
unfolding subtract
subtract-IsMap [] u h = h
subtract-IsMap ((k, r) ∷ keys) u h =
    subtract-IsMap keys (take_off k r (usage_of k u) u) (take_off-IsMap k r (usage_of k u) u h)
