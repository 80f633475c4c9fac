-- ===== src/Attestation/Cbor/Heads.antt =====
-- cbor.ts, `argument` read backwards: the head that it accepts is the shortest one.
use mathlib.Core.List.{append_assoc, append-nil}
use mathlib.Core.Path.{subst, ap₂}
use sdidfy.Prelude.{
  ℕ, suc, ◌+◌, ◌*◌, ◌/◌, ◌%◌, ◌^◌, ◌≤◌, ◌<◌, ◌≡◌, refl, sym, ap, ◌∙◌, ◌⊎◌, inl, inr, List, [], ◌∷◌,
  ◌++◌, arith, length, All, ok, true, lt→ltb, ltb, >>=-eq-ok, ok-injective, throw_if-eq-ok,
  take-append-drop, length-take, All-take, All-drop, Bool-cases, err-ne-ok, not,
}
use sdidfy.Attestation.Digits.{IsByte, big_endian}
use sdidfy.Attestation.Cbor.{
  argument, wide_argument, raw_bytes, count_argument, is_safe, width_of, minimum_of,
}
use sdidfy.Attestation.Cbor.Encoding.{be_fixed, write_head}

be_fixed-snoc :
    (k acc b : ℕ) → b < 256 → be_fixed (suc k) (acc * 256 + b) ≡ be_fixed k acc ++ b ∷ []
unfolding be_fixed
be_fixed-snoc k acc b h =
    let q : (acc * 256 + b) / 256 ≡ acc = omega arith in
    let r : (acc * 256 + b) % 256 ≡ b = omega arith in rw (q, r) refl

be_fixed-big_endian :
    (raw : List ℕ) (k acc : ℕ)
    → All IsByte raw
    → be_fixed (length raw + k) (big_endian acc raw) ≡ be_fixed k acc ++ raw
unfolding big_endian
be_fixed-big_endian [] k acc h = ap (λ (m : ℕ). be_fixed m acc) (omega arith) ∙ sym (append-nil _)
be_fixed-big_endian (b ∷ bs) k acc (hb, h) =
    ap (λ (m : ℕ). be_fixed m (big_endian (acc * 256 + b) bs)) (omega arith)
    ∙ be_fixed-big_endian bs (suc k) (acc * 256 + b) h
    ∙ ap (λ (l : List ℕ). l ++ bs) (be_fixed-snoc k acc b hb)
    ∙ append_assoc (be_fixed k acc) (b ∷ []) bs

abbrev pub IsCut : ℕ → List ℕ → List ℕ × List ℕ → Type 0
IsCut n bs (raw, r) = (bs ≡ raw ++ r) × (length raw ≡ n) × All IsByte raw × All IsByte r

-- The bytes cut off are there, and are as many as declared.
pub raw_bytes-append :
    (n : ℕ) (bs raw r : List ℕ) → All IsByte bs → raw_bytes n bs ≡ ok (raw, r) → IsCut n bs (raw, r)
unfolding raw_bytes
raw_bytes-append n bs raw r h e = elim (Bool-cases (ltb (length bs) n)) [
  | inl short ↦ absurd (err-ne-ok (rw short at e))
  | inr enough ↦
      let cut = ok-injective (rw enough at e) in
      subst (IsCut n bs) cut (
        sym (take-append-drop n bs),
        length-take n bs (ground arith),
        All-take IsByte n bs h,
        All-drop IsByte n bs h,
      )
]

-- Widths of one, two and four bytes bound the value.
narrow :
    (raw : List ℕ)
    → All IsByte raw
    → (length raw ≡ 1 → big_endian 0 raw < 2 ^ 8)
      × (length raw ≡ 2 → big_endian 0 raw < 2 ^ 16)
      × (length raw ≡ 4 → big_endian 0 raw < 2 ^ 32)
unfolding big_endian
narrow [] h = omega arith
narrow (a ∷ []) h = omega arith
narrow (a ∷ b ∷ []) h = omega arith
narrow (a ∷ b ∷ c ∷ []) h = omega arith
narrow (a ∷ b ∷ c ∷ d ∷ []) h = omega arith
narrow (a ∷ b ∷ c ∷ d ∷ e ∷ raw) h = omega arith

raw_digits :
    (raw : List ℕ) (width n : ℕ)
    → All IsByte raw
    → length raw ≡ width
    → n ≡ big_endian 0 raw
    → be_fixed width n ≡ raw
raw_digits raw width n h len value =
    let w : width ≡ length raw + 0 = omega arith in
    ap₂ be_fixed w value ∙ be_fixed-big_endian raw 0 0 h ∙ ap (λ (l : List ℕ). l ++ raw) none
  where
    none : be_fixed 0 0 ≡ []
    none = unfold be_fixed in refl

wide_head :
    (major ai n : ℕ) (raw : List ℕ)
    → All IsByte raw
    → 24 ≤ ai
    → ai ≤ 27
    → length raw ≡ width_of ai
    → minimum_of ai ≤ n
    → n ≡ big_endian 0 raw
    → write_head major n ≡ (major * 32 + ai) ∷ raw
unfolding write_head
wide_head major ai n raw h lo hi len least value =
    let (b1, b2, b4) = narrow raw h in
    let d = raw_digits raw (width_of ai) n h len value in ground arith

argument_cases :
    (ai n : ℕ) (bs r : List ℕ)
    → argument ai bs ≡ ok (n, r)
    → ((ai < 24) × (n ≡ ai) × (bs ≡ r))
      ⊎ ((24 ≤ ai) × (ai ≤ 27) × (wide_argument ai bs ≡ ok (n, r)))
unfolding argument
argument_cases ai n bs r e = ground arith

abbrev pub HeadSplits : ℕ → ℕ → List ℕ → ℕ × List ℕ → Type 0
HeadSplits major ai bs (n, r) = ((major * 32 + ai) ∷ bs ≡ write_head major n ++ r) × All IsByte r

low_head :
    (major ai n : ℕ) (bs r : List ℕ)
    → All IsByte bs
    → ai < 24
    → n ≡ ai
    → bs ≡ r
    → HeadSplits major ai bs (n, r)
unfolding write_head
low_head major ai n bs r h low value same =
    (rw (value, lt→ltb ai 24 low, same) refl, subst (All IsByte) same h)

wide_argument-write_head :
    (major ai n : ℕ) (bs r : List ℕ)
    → All IsByte bs
    → 24 ≤ ai
    → ai ≤ 27
    → wide_argument ai bs ≡ ok (n, r)
    → HeadSplits major ai bs (n, r)
unfolding wide_argument
wide_argument-write_head major ai n bs r h lo hi e =
    let ((raw, rest), cut, e1) = >>=-eq-ok (raw_bytes (width_of ai) bs) _ e in
    let (least, e2) = throw_if-eq-ok (ltb (big_endian 0 raw) (minimum_of ai)) _ _ e1 in
    let (split, len, hraw, hrest) = raw_bytes-append (width_of ai) bs raw rest h cut in
    let head = wide_head major ai (big_endian 0 raw) raw hraw lo hi len (ground arith) refl in
    subst (HeadSplits major ai bs) (ok-injective e2)
      (ap (◌∷◌ (major * 32 + ai)) split ∙ ap (λ (l : List ℕ). l ++ rest) (sym head), hrest)

-- An accepted head is the shortest one for its major type and its argument.
pub argument-write_head :
    (major ai n : ℕ) (bs r : List ℕ)
    → All IsByte bs
    → argument ai bs ≡ ok (n, r)
    → HeadSplits major ai bs (n, r)
argument-write_head major ai n bs r h e = elim (argument_cases ai n bs r e) [
  | inl (low, value, same) ↦ low_head major ai n bs r h low value same
  | inr (lo, hi, wide) ↦ wide_argument-write_head major ai n bs r h lo hi wide
]

-- A count is an argument that JS holds exactly and that the bytes left can cover.
pub count_argument-argument :
    (ai n : ℕ) (bs r : List ℕ)
    → count_argument ai bs ≡ ok (n, r)
    → (argument ai bs ≡ ok (n, r)) × (is_safe n ≡ true) × (n ≤ length r)
unfolding count_argument
count_argument-argument ai n bs r e =
    let ((m, rest), first, e1) = >>=-eq-ok (argument ai bs) _ e in
    let (safe, e2) = throw_if-eq-ok (not (is_safe m)) _ _ e1 in
    let (fits, e3) = throw_if-eq-ok (ltb (length rest) m) _ _ e2 in
    (first ∙ e3, ground arith, ground arith)
