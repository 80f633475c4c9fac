-- ===== src/Attestation/Der/Tag.antt =====
-- der.ts, `readTagNumber` read backwards: what it accepts is what the writer writes.
use mathlib.Core.List.{append_assoc}
use sdidfy.Prelude.{
  ℕ, ◌+◌, ◌*◌, ◌/◌, ◌%◌, ◌^◌, ◌≤◌, ◌<◌, ◌≡◌, sym, ap, ◌∙◌, ◌⊎◌, inl, inr, List, [], ◌∷◌, ◌++◌,
  arith, ◌==◌, lt→ltb, le→ltb, All, ok,
}
use sdidfy.Attestation.Digits.{IsByte, septets, septets-zero, septets-snoc}
use sdidfy.Attestation.Der.{tag_octets, read_tag_number, tag_class_of}
use sdidfy.Attestation.Der.Writer.{class_bits, form_bit, write_tag}

tag_octets_cases :
    (b : ℕ) (bs : List ℕ) (v k n : ℕ) (r : List ℕ)
    → tag_octets (b ∷ bs) v k ≡ ok (n, r)
    → ((b < 128) × (n ≡ v * 128 + b % 128) × (bs ≡ r) × (n < 2 ^ 28))
      ⊎ ((128 ≤ b) × (128 < k * 128 + b) × (tag_octets bs (v * 128 + b % 128) (k + 1) ≡ ok (n, r)))
unfolding tag_octets
tag_octets_cases b bs v k n r e = ground arith

raised : (v b k : ℕ) → b < 256 → (0 < k → 0 < v) → 128 < k * 128 + b → 0 < v * 128 + b % 128
raised v b k hb pos start = grind arith

started : (v b k : ℕ) → 128 ≤ b → (0 < k → 0 < v) → 128 < k * 128 + b → 128 < v + b
started v b k high pos start = grind arith

tag_octets-septets :
    (bs : List ℕ) (v k n : ℕ) (r : List ℕ)
    → All IsByte bs
    → (0 < k → 0 < v)
    → tag_octets bs v k ≡ ok (n, r)
    → (septets v ++ bs ≡ septets (n / 128) ++ (n % 128) ∷ r) × (n < 2 ^ 28)
unfolding tag_octets
tag_octets-septets [] v k n r h pos e = cc
tag_octets-septets (b ∷ bs) v k n r (hb, h) pos e = elim (tag_octets_cases b bs v k n r e) [
  | inl (low, value, same, small) ↦ (last_septet v b n bs r low value same, small)
  | inr (high, start, more) ↦
      let (ih, small) =
        tag_octets-septets bs (v * 128 + b % 128) (k + 1) n r h (λ _. raised v b k hb pos start)
          more in
      let split = septets-snoc v b high hb (started v b k high pos start) in
      (
        sym (append_assoc (septets v) (b ∷ []) bs) ∙ ap (λ (l : List ℕ). l ++ bs) (sym split) ∙ ih,
        small,
      )
]
  where
    last_septet :
        (v b n : ℕ) (bs r : List ℕ)
        → b < 128
        → n ≡ v * 128 + b % 128
        → bs ≡ r
        → septets v ++ b ∷ bs ≡ septets (n / 128) ++ (n % 128) ∷ r
    last_septet v b n bs r low value same =
        let q : v ≡ n / 128 = omega arith in let d : b ≡ n % 128 = omega arith in rw (q, d, same)

class_bits-tag_class_of : (x : ℕ) → x < 4 → class_bits (tag_class_of x) ≡ x
unfolding class_bits tag_class_of
class_bits-tag_class_of x h = ground arith

form_bit-test : (x : ℕ) → x < 2 → form_bit (x == 1) ≡ x
unfolding form_bit
form_bit-test x h = ground arith

identifier_lem :
    (i : ℕ)
    → i < 256
    → class_bits (tag_class_of (i / 64 % 4)) * 64 + form_bit (i / 32 % 2 == 1) * 32 + i % 32 ≡ i
identifier_lem i h =
    rw
      (class_bits-tag_class_of (i / 64 % 4) (omega arith), form_bit-test (i / 32 % 2) (omega arith))
      (omega arith)

read_tag_number_cases :
    (i : ℕ) (bs : List ℕ) (n : ℕ) (r : List ℕ)
    → read_tag_number i bs ≡ ok (n, r)
    → ((n ≡ i % 32) × (n < 31) × (bs ≡ r))
      ⊎ ((31 ≡ i % 32) × (31 ≤ n) × (tag_octets bs 0 0 ≡ ok (n, r)))
unfolding read_tag_number
read_tag_number_cases i bs n r e = ground arith

pub read_tag_number-write_tag :
    (i : ℕ) (bs : List ℕ) (n : ℕ) (r : List ℕ)
    → All IsByte (i ∷ bs)
    → read_tag_number i bs ≡ ok (n, r)
    → (i ∷ bs ≡ write_tag (tag_class_of (i / 64 % 4)) (i / 32 % 2 == 1) n ++ r) × (n < 2 ^ 28)
unfolding write_tag
read_tag_number-write_tag i bs n r (hi, h) e = elim (read_tag_number_cases i bs n r e) [
  | inl (value, low, same) ↦ (rw (lt→ltb n 31 low, value, identifier_lem i hi, same), omega arith)
  | inr (form, high, more) ↦
      let (octets, small) = tag_octets-septets bs 0 0 n r h (λ p. absurd (omega arith)) more in
      (
        rw (le→ltb n 31 high, form, identifier_lem i hi)
            (ap (◌∷◌ i) (
              ap (λ (l : List ℕ). l ++ bs) (sym septets-zero)
              ∙ octets
              ∙ sym (append_assoc (septets (n / 128)) ((n % 128) ∷ []) r))),
        small,
      )
]
