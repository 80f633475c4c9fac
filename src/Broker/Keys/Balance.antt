-- ===== src/Broker/Keys/Balance.antt =====
-- keys.service.ts: what each operation does to the sum of the reports and the tallies.
use Prim.Native.String.{String}
use mathlib.Core.Path.{subst}
use sdidfy.Prelude.{
  some-injective, none≢some, ◌≡◌, refl, sym, ap, ◌∙◌, Bool, true, false, Option, none, some, List,
  ◌∷◌, same, same_iff, if◌then◌else◌, arith, Bool-cases, inl, inr,
}
use sdidfy.Prelude.Int.{ℤ, pos, ◌+ℤ◌, ◌-ℤ◌, pos_part, neg_part, +ℤ_parts, -ℤ_parts, eq_of_parts}
use sdidfy.Broker.Keys.{
  KeyRow, usage_summary, append_or_log, TallyField, signatures, probe_signatures, failures,
  suppressed_failure_rows, UsageTally, Usage, usage_of, or_none, increment, tally, is_zero,
  is_spent, minus, subtract,
}
use sdidfy.Broker.Keys.Tallies.{
  IsMap, usage_of-set_usage, tally-IsMap, left, reduced, usage_of-subtract, subtract-IsMap,
}
use sdidfy.Broker.Keys.Books.{is_entry, count, amount, in_row, reported, IsBalanced}

usage_of-tally :
    (k j : String) (f : TallyField) (u : Usage)
    → usage_of j (tally k f u)
      ≡ (if same k j then some (increment f (or_none (usage_of k u))) else usage_of j u)
unfolding tally
usage_of-tally k j f u = usage_of-set_usage k j (increment f (or_none (usage_of k u))) u

amount-tally :
    (k j : String) (f g : TallyField) (u : Usage)
    → amount g (usage_of j (tally k f u))
      ≡ (if is_entry j g (k, f) then amount g (usage_of j u) +ℤ pos 1 else amount g (usage_of j u))
amount-tally k j f g u = elim (Bool-cases (same k j)) [
  | inl hit ↦
      let one : k ≡ j = (same_iff k j).0 hit in
      ap (amount g) (usage_of-tally k j f u)
      ∙ rw hit (ap (λ (x : String). increment f (or_none (usage_of x u)) g) one)
  | inr miss ↦ ap (amount g) (usage_of-tally k j f u) ∙ rw miss refl
]

is_zero-eq : (z : ℤ) → is_zero z ≡ true → z ≡ pos 0
is_zero-eq z h = ground arith

spent_zero : (t : UsageTally) (f : TallyField) → is_spent t ≡ true → t f ≡ pos 0
spent_zero t signatures h = is_zero-eq (t signatures) (ground arith)
spent_zero t probe_signatures h = is_zero-eq (t probe_signatures) (ground arith)
spent_zero t failures h = is_zero-eq (t failures) (ground arith)
spent_zero t suppressed_failure_rows h = is_zero-eq (t suppressed_failure_rows) (ground arith)

amount-left : (t r : UsageTally) (f : TallyField) → amount f (left (some t) r) ≡ t f -ℤ r f
amount-left t r f = elim (Bool-cases (is_spent (minus t r))) [
  | inl spent ↦ rw spent (sym (spent_zero (minus t r) f spent))
  | inr kept ↦ rw kept refl
]

minus_zero : (a : ℤ) → a -ℤ pos 0 ≡ a
unfolding ◌-ℤ◌
minus_zero a = ground arith

-- Nothing is lost: a key that was reported is still in the map.
amount-reduced :
    (o r : Option UsageTally) (f : TallyField)
    → (o ≡ none → r ≡ none)
    → amount f (reduced o r) ≡ amount f o -ℤ amount f r
amount-reduced o none f h = sym (minus_zero (amount f o))
amount-reduced (some t) (some r) f h = amount-left t r f
amount-reduced none (some r) f h = ground arith

usage_of-tally-none :
    (k j : String) (f : TallyField) (u : Usage)
    → usage_of j (tally k f u) ≡ none
    → usage_of j u ≡ none
usage_of-tally-none k j f u gone = elim (Bool-cases (same k j)) [
  | inl hit ↦ absurd (
      none≢some {a = increment f (or_none (usage_of k u))}
        (sym gone ∙ usage_of-tally k j f u ∙ rw hit refl))
  | inr miss ↦ sym (usage_of-tally k j f u ∙ rw miss refl) ∙ gone
]

count_one : (a b c : ℤ) → a ≡ b +ℤ c → a +ℤ pos 1 ≡ b +ℤ (c +ℤ pos 1)
count_one a b c h = eq_of_parts (a +ℤ pos 1) (b +ℤ (c +ℤ pos 1)) (
    omega (
      arith,
      +ℤ_parts a (pos 1),
      +ℤ_parts b (c +ℤ pos 1),
      +ℤ_parts c (pos 1),
      +ℤ_parts b c,
      ap pos_part h,
      ap neg_part h,
    ))

count_row : (a b c d : ℤ) → a ≡ b +ℤ c → a ≡ (b +ℤ d) +ℤ (c -ℤ d)
count_row a b c d h = eq_of_parts a ((b +ℤ d) +ℤ (c -ℤ d)) (
    omega (
      arith,
      +ℤ_parts b d,
      +ℤ_parts b c,
      -ℤ_parts c d,
      +ℤ_parts (b +ℤ d) (c -ℤ d),
      ap pos_part h,
      ap neg_part h,
    ))

pub nothing : (a : ℤ) → a +ℤ pos 0 ≡ a
unfolding ◌+ℤ◌
nothing a = ground arith

pub tally-IsBalanced :
    (kid : String) (f : TallyField) (u : Usage) (flight : Option Usage) (rows : List KeyRow)
    (counted : List (String × TallyField))
    → IsBalanced u flight rows counted
    → IsBalanced (tally kid f u) flight rows ((kid, f) ∷ counted)
tally-IsBalanced kid f u flight rows counted h = record {
  is_map = tally-IsMap kid f u h.is_map;
  flight_map = h.flight_map;
  covered = λ keys j e gone. h.covered keys j e (usage_of-tally-none kid j f u gone);
  balance = λ j g. elim (Bool-cases (is_entry j g (kid, f))) [
    | inl hit ↦
        rw (amount-tally kid j f g u, hit)
          (count_one (count j g counted) (reported j g rows) (amount g (usage_of j u))
            (h.balance j g))
    | inr miss ↦ rw (amount-tally kid j f g u, miss) (h.balance j g)
  ];
}

-- A row that is no summary reports nothing.
pub row-IsBalanced :
    (row : KeyRow) (appended : Bool) (u : Usage) (flight : Option Usage) (rows : List KeyRow)
    (counted : List (String × TallyField))
    → ((kid : String) (f : TallyField) → in_row kid f row ≡ pos 0)
    → IsBalanced u flight rows counted
    → IsBalanced u flight (append_or_log appended row rows) counted
row-IsBalanced row false u flight rows counted silent h = h
row-IsBalanced row true u flight rows counted silent h = record {
  is_map = h.is_map;
  flight_map = h.flight_map;
  covered = h.covered;
  balance = λ kid f.
      h.balance kid f
      ∙ ap (λ (z : ℤ). z +ℤ amount f (usage_of kid u))
          (sym (
            ap (λ (z : ℤ). reported kid f rows +ℤ z) (silent kid f)
            ∙ nothing (reported kid f rows)));
}

pub begin-IsBalanced :
    (u : Usage) (rows : List KeyRow) (counted : List (String × TallyField))
    → IsBalanced u none rows counted
    → IsBalanced u (some u) rows counted
begin-IsBalanced u rows counted h = record {
  is_map = h.is_map;
  flight_map = λ keys e. subst IsMap (some-injective e) h.is_map;
  covered = λ keys kid e gone. ap (usage_of kid) (sym (some-injective e)) ∙ gone;
  balance = h.balance;
}

pub empty-IsBalanced :
    (u : Usage) (flight : Option Usage) (rows : List KeyRow) (counted : List (String × TallyField))
    → IsBalanced u flight rows counted
    → IsBalanced u none rows counted
empty-IsBalanced u flight rows counted h = record {
  is_map = h.is_map;
  flight_map = λ keys e. absurd (none≢some e);
  covered = λ keys kid e gone. absurd (none≢some e);
  balance = h.balance;
}

pub report-IsBalanced :
    (keys u : Usage) (rows : List KeyRow) (counted : List (String × TallyField))
    → IsBalanced u (some keys) rows counted
    → IsBalanced (subtract keys u) none (usage_summary keys ∷ rows) counted
report-IsBalanced keys u rows counted h = record {
  is_map = subtract-IsMap keys u h.is_map;
  flight_map = λ ks e. absurd (none≢some e);
  covered = λ ks kid e gone. absurd (none≢some e);
  balance = λ kid f.
      let left_over : amount f (usage_of kid (subtract keys u))
          ≡ amount f (usage_of kid u) -ℤ amount f (usage_of kid keys) =
        ap (amount f) (usage_of-subtract kid keys u (h.flight_map keys refl))
        ∙ amount-reduced (usage_of kid u) (usage_of kid keys) f (h.covered keys kid refl) in
      count_row (count kid f counted) (reported kid f rows) (amount f (usage_of kid u))
        (amount f (usage_of kid keys)) (h.balance kid f)
      ∙ ap (λ (z : ℤ). (reported kid f rows +ℤ amount f (usage_of kid keys)) +ℤ z) (sym left_over);
}
