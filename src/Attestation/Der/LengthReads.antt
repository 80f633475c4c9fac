-- ===== src/Attestation/Der/LengthReads.antt =====
-- der.ts, `readLength` read forwards: the shortest form of a length is accepted.
use native.Mathlib.Decide.{dec_lt}
use sdidfy.Prelude.{
  ℕ, zero, suc, ◌+◌, ◌*◌, ◌/◌, ◌%◌, ◌^◌, ◌≤◌, ◌<◌, ◌≡◌, refl, List, [], ◌∷◌, ◌++◌, arith, length,
  length-append, ok, false, lt→ltb, le→ltb, ◌==◌,
}
use sdidfy.Attestation.Digits.{digits, digits_step, be_bytes, big_endian}
use sdidfy.Attestation.Der.{read_bytes, long_length, leads_with_zero, read_length}
use sdidfy.Attestation.Der.Writer.{write_length}

big_endian-snoc :
    (xs : List ℕ) (acc b : ℕ) → big_endian acc (xs ++ b ∷ []) ≡ big_endian acc xs * 256 + b
unfolding big_endian
big_endian-snoc [] acc b = refl
big_endian-snoc (x ∷ xs) acc b = big_endian-snoc xs (acc * 256 + x) b

-- What the shortest bytes of `n` are like.
record IsShortest (n : ℕ) (xs : List ℕ) : Type 0 where
  value : big_endian 0 xs ≡ n
  led : leads_with_zero xs ≡ false
  some_else : 0 < n → 0 < length xs
  none_for_zero : n ≡ 0 → length xs ≡ 0
  one : n < 256 → length xs ≤ 1
  two : n < 256 * 256 → length xs ≤ 2
  three : n < 256 * 256 * 256 → length xs ≤ 3
  four : n < 256 * 256 * 256 * 256 → length xs ≤ 4

leads-snoc :
    (xs : List ℕ) (n b : ℕ)
    → leads_with_zero xs ≡ false
    → (0 < n → 0 < length xs)
    → 0 < n + b
    → leads_with_zero (xs ++ b ∷ []) ≡ false
leads-snoc [] n b led some pos = grind arith
leads-snoc (x ∷ xs) n b led some pos = led

IsShortest-snoc :
    (xs : List ℕ) (n : ℕ)
    → 0 < n
    → IsShortest (n / 256) xs
    → IsShortest n (xs ++ (n % 256 + 0) ∷ [])
IsShortest-snoc xs n pos v =
    let len : length (xs ++ (n % 256 + 0) ∷ []) ≡ length xs + 1 =
      length-append xs ((n % 256 + 0) ∷ []) in
    record {
      value = omega (arith, big_endian-snoc xs 0 (n % 256 + 0), v.value);
      led = leads-snoc xs (n / 256) (n % 256 + 0) v.led v.some_else (omega arith);
      some_else = λ _. omega arith;
      none_for_zero = λ e. absurd (omega arith);
      one = λ p. omega (arith, v.none_for_zero (omega arith));
      two = λ p. omega (arith, v.one (omega arith));
      three = λ p. omega (arith, v.two (omega arith));
      four = λ p. omega (arith, v.three (omega arith));
    }

no_bytes : IsShortest 0 []
unfolding big_endian
no_bytes = record {
  value = refl;
  led = refl;
  some_else = λ p. omega arith;
  none_for_zero = λ _. refl;
  one = λ _. omega arith;
  two = λ _. omega arith;
  three = λ _. omega arith;
  four = λ _. omega arith;
}

digits-IsShortest : (f n : ℕ) → n ≤ f → IsShortest n (digits 256 0 f n)
unfolding digits
digits-IsShortest zero zero h = no_bytes
digits-IsShortest zero (suc n) h = absurd (omega arith)
digits-IsShortest (suc f) zero h = no_bytes
digits-IsShortest (suc f) (suc n) h = rw (digits_step 256 0 f (suc n) (omega arith)) (
    IsShortest-snoc (digits 256 0 f (suc n / 256)) (suc n) (omega arith)
      (digits-IsShortest f (suc n / 256) (omega arith)))

read_bytes-length : (xs r : List ℕ) → read_bytes (length xs) (xs ++ r) ≡ ok (xs, r)
unfolding read_bytes
read_bytes-length [] r = refl
read_bytes-length (x ∷ xs) r = rw (read_bytes-length xs r) refl

long_form :
    (n : ℕ) (r : List ℕ)
    → 128 ≤ n
    → n < 2 ^ 32
    → read_length ((128 + length (be_bytes n)) ∷ (be_bytes n ++ r)) ≡ ok (n, r)
unfolding read_length long_length be_bytes
long_form n r large small =
    let xs : List ℕ = digits 256 0 n n in
    let v : IsShortest n xs = digits-IsShortest n n (omega arith) in
    let some : 0 < length xs = v.some_else (omega arith) in
    let few : length xs ≤ 4 = v.four (omega arith) in
    let count : (128 + length xs) % 128 ≡ length xs = omega arith in
    let long : (128 + length xs == 128) ≡ false = ground arith in
    rw
      (
        long,
        le→ltb (128 + length xs) 128 (omega arith),
        count,
        le→ltb 4 (length xs) few,
        read_bytes-length xs r,
        v.led,
        v.value,
        le→ltb n 128 large,
      )
      refl

pub read_length-write_length :
    (n : ℕ) (r : List ℕ) → n < 2 ^ 32 → read_length (write_length n ++ r) ≡ ok (n, r)
unfolding write_length
read_length-write_length n r small = elim (dec_lt n 128) [
  | yes low ↦ rw (lt→ltb n 128 low) (short_form n r low)
  | no high ↦ rw (le→ltb n 128 (omega arith)) (long_form n r (omega arith) small)
]
  where
    short_form : (n : ℕ) (r : List ℕ) → n < 128 → read_length (n ∷ r) ≡ ok (n, r)
    short_form n r low = unfold read_length in ground arith
