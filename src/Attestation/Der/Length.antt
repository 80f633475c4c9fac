-- ===== src/Attestation/Der/Length.antt =====
-- der.ts, `readLength` read backwards: what it accepts is the shortest form of the length.
use sdidfy.Prelude.{
  ℕ, zero, suc, ◌+◌, ◌*◌, ◌%◌, ◌^◌, ◌≤◌, ◌<◌, ◌≡◌, refl, ap, ◌∙◌, ◌⊎◌, inl, inr, List, [], ◌∷◌,
  ◌++◌, arith, ltb, length, All, ok, false, lt→ltb, le→ltb, >>=-eq-ok, throw_if-eq-ok, All-prefix,
}
use sdidfy.Attestation.Digits.{
  IsByte, big_endian, be_bytes, be_bytes-zero, be_bytes-snoc, be_bytes-big_endian,
}
use sdidfy.Attestation.Der.{read_bytes, read_length, long_length, leads_with_zero}
use sdidfy.Attestation.Der.Writer.{write_length}

pub read_bytes-append :
    (n : ℕ) (bs xs r : List ℕ) → read_bytes n bs ≡ ok (xs, r) → (bs ≡ xs ++ r) × (length xs ≡ n)
unfolding read_bytes
read_bytes-append zero bs xs r e = ground arith
read_bytes-append (suc n) [] xs r e = cc
read_bytes-append (suc n) (b ∷ bs) xs r e =
    let ((read, rest), first, last) = >>=-eq-ok (read_bytes n bs) _ e in
    let (ih, len) = read_bytes-append n bs read rest first in (ground arith, ground arith)

long_length_cases :
    (count : ℕ) (bs : List ℕ) (n : ℕ) (r : List ℕ)
    → long_length count bs ≡ ok (n, r)
    → (xs : List ℕ) × (read_bytes count bs ≡ ok (xs, r))
      × (count ≤ 4)
      × (leads_with_zero xs ≡ false)
      × (128 ≤ n)
      × (n ≡ big_endian 0 xs)
unfolding long_length
long_length_cases count bs n r e =
    let (fits, e1) = throw_if-eq-ok (ltb 4 count) _ _ e in
    let ((xs, rest), first, e2) = >>=-eq-ok (read_bytes count bs) _ e1 in
    let (led, e3) = throw_if-eq-ok (leads_with_zero xs) _ _ e2 in
    let (short, e4) = throw_if-eq-ok (ltb (big_endian 0 xs) 128) _ _ e3 in
    (xs, ground arith, ground arith, led, ground arith, ground arith)

-- Four bytes stay below 2^32.
big_endian_bound : (xs : List ℕ) → All IsByte xs → length xs ≤ 4 → big_endian 0 xs < 2 ^ 32
unfolding big_endian
big_endian_bound [] h len = omega arith
big_endian_bound (a ∷ []) h len = omega arith
big_endian_bound (a ∷ b ∷ []) h len = omega arith
big_endian_bound (a ∷ b ∷ c ∷ []) h len = omega arith
big_endian_bound (a ∷ b ∷ c ∷ d ∷ []) h len = omega arith
big_endian_bound (a ∷ b ∷ c ∷ d ∷ e ∷ xs) h len = absurd (omega arith)

-- The bytes of a long length are the digits of its value.
be_bytes_of_read :
    (xs : List ℕ) → All IsByte xs → leads_with_zero xs ≡ false → be_bytes (big_endian 0 xs) ≡ xs
unfolding big_endian
be_bytes_of_read [] h led = be_bytes-zero
be_bytes_of_read (x ∷ xs) (hx, h) led =
    let pos : 0 < 0 * 256 + x = ground arith in
    be_bytes-big_endian xs (0 * 256 + x) pos h
    ∙ ap (λ (l : List ℕ). l ++ xs)
        (be_bytes-snoc 0 x hx (omega arith) ∙ ap (λ (l : List ℕ). l ++ x ∷ []) be_bytes-zero)

read_length_cases :
    (first : ℕ) (bs : List ℕ) (n : ℕ) (r : List ℕ)
    → first < 256
    → read_length (first ∷ bs) ≡ ok (n, r)
    → ((n ≡ first) × (first < 128) × (bs ≡ r))
      ⊎ ((first ≡ 128 + first % 128) × (long_length (first % 128) bs ≡ ok (n, r)))
unfolding read_length
read_length_cases first bs n r h e = ground arith

long_length-write :
    (first : ℕ) (bs xs : List ℕ) (n : ℕ) (r : List ℕ)
    → All IsByte bs
    → first ≡ 128 + first % 128
    → first % 128 ≤ 4
    → 128 ≤ n
    → n ≡ big_endian 0 xs
    → leads_with_zero xs ≡ false
    → bs ≡ xs ++ r
    → length xs ≡ first % 128
    → (first ∷ bs ≡ write_length n ++ r) × (n < 2 ^ 32)
unfolding write_length
long_length-write first bs xs n r h form few large value led split len =
    let hx : All IsByte xs = All-prefix IsByte xs r bs split h in
    let form' : 128 + length xs ≡ first = omega arith in
    (
      rw (le→ltb n 128 large, value, be_bytes_of_read xs hx led, form', split) refl,
      omega (arith, big_endian_bound xs hx (omega arith)),
    )

pub write_length-read_length :
    (bs : List ℕ) (n : ℕ) (r : List ℕ)
    → All IsByte bs
    → read_length bs ≡ ok (n, r)
    → (bs ≡ write_length n ++ r) × (n < 2 ^ 32)
unfolding read_length write_length
write_length-read_length [] n r h e = cc
write_length-read_length (first ∷ bs) n r (hf, h) e = elim (read_length_cases first bs n r hf e) [
  | inl (value, low, same) ↦ (rw (value, lt→ltb first 128 low, same), omega arith)
  | inr (form, long) ↦
      let (xs, read, few, led, large, value) = long_length_cases (first % 128) bs n r long in
      let (split, len) = read_bytes-append (first % 128) bs xs r read in
      long_length-write first bs xs n r h form few large value led split len
]
