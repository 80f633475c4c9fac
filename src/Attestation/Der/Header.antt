-- ===== src/Attestation/Der/Header.antt =====
-- der.ts, read forwards: the identifier and length octets that the writer writes are accepted.
use mathlib.Core.List.{append_assoc}
use sdidfy.Prelude.{
  ℕ, zero, suc, ◌+◌, ◌*◌, ◌/◌, ◌%◌, ◌^◌, ◌≤◌, ◌<◌, ◌≡◌, refl, ap, ◌∙◌, List, [], ◌∷◌, ◌++◌, arith,
  ok, false, true, Bool, ◌&&◌, lt→ltb, le→ltb, ◌==◌,
}
use native.Mathlib.Decide.{dec_lt}
use sdidfy.Attestation.Digits.{digits, digits_step, septets}
use sdidfy.Attestation.Der.{
  DerTagClass, universal, application, context, private_use, tag_octets, read_tag_number,
  tag_class_of,
}
use sdidfy.Attestation.Der.Writer.{write_tag, class_bits, form_bit}

-- How many septets `m` has: none for zero, at most three below 2^21.
record IsCount (m k : ℕ) : Type 0 where
  none_for_zero : m ≡ 0 → k ≡ 0
  some_else : 0 < m → 0 < k
  one : m < 128 → k ≤ 1
  two : m < 128 * 128 → k ≤ 2
  three : m < 128 * 128 * 128 → k ≤ 3

fresh_octet : (m k : ℕ) → 0 < m → (0 < m / 128 → 0 < k) → (k == 0 && m % 128 + 128 == 128) ≡ false
fresh_octet m k pos lead = grind arith

tag_octets_step :
    (m k : ℕ) (rest : List ℕ)
    → 0 < m
    → m < 2 ^ 21
    → k < 4
    → (0 < m / 128 → 0 < k)
    → tag_octets ((m % 128 + 128) ∷ rest) (m / 128) k ≡ tag_octets rest m (k + 1)
unfolding tag_octets
tag_octets_step m k rest pos small few lead =
    let v : m / 128 * 128 + (m % 128 + 128) % 128 ≡ m = omega arith in
    let first : (k == 0 && m % 128 + 128 == 128) ≡ false = fresh_octet m k pos lead in
    rw
      (
        first,
        v,
        le→ltb (m % 128 + 128) 128 (omega arith),
        le→ltb 0x0fff_ffff m (omega arith),
        le→ltb 4 (k + 1) (omega arith),
      )
      refl

tag_octets-digits :
    (f m : ℕ) (rest : List ℕ)
    → m ≤ f
    → m < 2 ^ 21
    → (k : ℕ) × IsCount m k × (tag_octets (digits 128 128 f m ++ rest) 0 0 ≡ tag_octets rest m k)
unfolding digits
tag_octets-digits zero m rest le small = (
  0,
  record {
    none_for_zero = λ _. refl;
    some_else = λ p. omega arith;
    one = λ _. omega arith;
    two = λ _. omega arith;
    three = λ _. omega arith;
  },
  ground arith,
)
tag_octets-digits (suc f) zero rest le small = (
  0,
  record {
    none_for_zero = λ _. refl;
    some_else = λ p. omega arith;
    one = λ _. omega arith;
    two = λ _. omega arith;
    three = λ _. omega arith;
  },
  refl,
)
tag_octets-digits (suc f) (suc m) rest le small =
    let (k, c, ih) =
      tag_octets-digits f (suc m / 128) ((suc m % 128 + 128) ∷ rest) (omega arith) (omega arith) in
    (
      k + 1,
      record {
        none_for_zero = λ e. absurd (omega arith);
        some_else = λ _. omega arith;
        one = λ p. omega (arith, c.none_for_zero (omega arith));
        two = λ p. omega (arith, c.one (omega arith));
        three = λ p. omega (arith, c.two (omega arith));
      },
      ap (λ (l : List ℕ). tag_octets (l ++ rest) 0 0) (digits_step 128 128 f (suc m) (omega arith))
          ∙ ap (λ (l : List ℕ). tag_octets l 0 0)
              (append_assoc (digits 128 128 f (suc m / 128)) ((suc m % 128 + 128) ∷ []) rest)
          ∙ ih
          ∙ tag_octets_step (suc m) k rest (omega arith) small
              (omega (arith, c.three (omega arith))) c.some_else,
    )

last_octet :
    (n k : ℕ) (r : List ℕ) → n < 2 ^ 28 → tag_octets ((n % 128) ∷ r) (n / 128) k ≡ ok (n, r)
unfolding tag_octets
last_octet n k r small =
    let v : n / 128 * 128 + n % 128 % 128 ≡ n = omega arith in
    let first : (k == 0 && n % 128 == 128) ≡ false = grind arith in
    rw (first, v, lt→ltb (n % 128) 128 (omega arith), le→ltb 0x0fff_ffff n (omega arith)) refl

high_form :
    (n : ℕ) (r : List ℕ)
    → n < 2 ^ 28
    → tag_octets ((septets (n / 128) ++ (n % 128) ∷ []) ++ r) 0 0 ≡ ok (n, r)
unfolding septets
high_form n r small =
    let (k, c, forward) =
      tag_octets-digits (n / 128) (n / 128) ((n % 128) ∷ r) (omega arith) (omega arith) in
    ap (λ (l : List ℕ). tag_octets l 0 0)
      (append_assoc (digits 128 128 (n / 128) (n / 128)) ((n % 128) ∷ []) r)
    ∙ forward
    ∙ last_octet n k r small

class_bits-lt : (c : DerTagClass) → class_bits c < 4
unfolding class_bits
class_bits-lt universal = omega arith
class_bits-lt application = omega arith
class_bits-lt context = omega arith
class_bits-lt private_use = omega arith

tag_class_of-class_bits : (c : DerTagClass) → tag_class_of (class_bits c) ≡ c
unfolding class_bits tag_class_of
tag_class_of-class_bits universal = refl
tag_class_of-class_bits application = refl
tag_class_of-class_bits context = refl
tag_class_of-class_bits private_use = refl

form_bit-lt : (k : Bool) → form_bit k < 2
unfolding form_bit
form_bit-lt true = omega arith
form_bit-lt false = omega arith

test-form_bit : (k : Bool) → (form_bit k == 1) ≡ k
unfolding form_bit
test-form_bit true = refl
test-form_bit false = refl

record Identifies (c : DerTagClass) (k : Bool) (low i : ℕ) : Type 0 where
  class_field : tag_class_of (i / 64 % 4) ≡ c
  form_field : (i / 32 % 2 == 1) ≡ k
  number_field : i % 32 ≡ low

identifies :
    (c : DerTagClass) (k : Bool) (low : ℕ)
    → low < 32
    → Identifies c k low (class_bits c * 64 + form_bit k * 32 + low)
identifies c k low h =
    let i : ℕ = class_bits c * 64 + form_bit k * 32 + low in
    let top : i / 64 % 4 ≡ class_bits c = omega (arith, class_bits-lt c, form_bit-lt k) in
    let mid : i / 32 % 2 ≡ form_bit k = omega (arith, class_bits-lt c, form_bit-lt k) in
    record {
      class_field = ap tag_class_of top ∙ tag_class_of-class_bits c;
      form_field = ap (λ (m : ℕ). m == 1) mid ∙ test-form_bit k;
      number_field = omega arith;
    }

-- The first octet, and how the rest of the tag is read after it.
pub record TagReads (c : DerTagClass) (k : Bool) (n : ℕ) (r : List ℕ) : Type 0 where
  pub first : ℕ
  pub tail : List ℕ
  pub split : write_tag c k n ++ r ≡ first ∷ tail
  pub class_field : tag_class_of (first / 64 % 4) ≡ c
  pub form_field : (first / 32 % 2 == 1) ≡ k
  pub number : read_tag_number first tail ≡ ok (n, r)

low_tag : (c : DerTagClass) (k : Bool) (n : ℕ) (r : List ℕ) → n < 31 → TagReads c k n r
unfolding read_tag_number write_tag
low_tag c k n r low =
    let v = identifies c k n (omega arith) in
    record {
      first = class_bits c * 64 + form_bit k * 32 + n;
      tail = r;
      split = rw (lt→ltb n 31 low) refl;
      class_field = v.class_field;
      form_field = v.form_field;
      number = rw (v.number_field) (grind arith);
    }

high_tag :
    (c : DerTagClass) (k : Bool) (n : ℕ) (r : List ℕ) → 31 ≤ n → n < 2 ^ 28 → TagReads c k n r
unfolding read_tag_number write_tag
high_tag c k n r high small =
    let v = identifies c k 31 (omega arith) in
    record {
      first = class_bits c * 64 + form_bit k * 32 + 31;
      tail = (septets (n / 128) ++ (n % 128) ∷ []) ++ r;
      split = rw (le→ltb n 31 high) refl;
      class_field = v.class_field;
      form_field = v.form_field;
      number = rw (v.number_field, high_form n r small, le→ltb n 31 high) refl;
    }

pub tag_reads : (c : DerTagClass) (k : Bool) (n : ℕ) (r : List ℕ) → n < 2 ^ 28 → TagReads c k n r
tag_reads c k n r small = elim (dec_lt n 31) [
  | yes low ↦ low_tag c k n r low
  | no high ↦ high_tag c k n r (omega arith) small
]
