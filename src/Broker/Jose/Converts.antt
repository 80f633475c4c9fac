-- ===== src/Broker/Jose/Converts.antt =====
-- key-custody.ts: the signature that a DER encoding becomes.
use native.Mathlib.Numerals.{unary_clauses}
use mathlib.Core.Path.{subst}
use mathlib.Core.List.{append_assoc, append-nil}
use sdidfy.Prelude.{
  ℕ, zero, suc, ◌-◌, ◌/◌, ◌%◌, ◌^◌, ◌≤◌, ◌<◌, ◌≡◌, refl, sym, ap, ◌∙◌, List, [], ◌∷◌, ◌++◌, ok,
  arith, ltb, if◌then◌else◌, length, length-append, Bool-cases, inl, inr, ◌⊎◌,
}
use sdidfy.Attestation.Digits.{be_bytes, be_bytes-zero, be_bytes_step}
use sdidfy.Broker.Jose.{trimmed, zeros, pad, left_padded}

-- RFC 7515: a number in a fixed number of bytes, the most significant first.
unfoldable pub fixed_width : ℕ → ℕ → List ℕ
fixed_width zero v = []
fixed_width (suc w) v = fixed_width w (v / 256) ++ (v % 256) ∷ []

-- X.690: the content of a positive INTEGER, which starts below 128.
abbrev pub signed_content : List ℕ → List ℕ
signed_content [] = 0 ∷ []
signed_content (b ∷ bs) = if ltb b 128 then b ∷ bs else 0 ∷ b ∷ bs

abbrev pub integer_bytes : ℕ → List ℕ
integer_bytes v = signed_content (be_bytes v)

zeros-snoc : (n : ℕ) → zeros n ++ 0 ∷ [] ≡ 0 ∷ zeros n
zeros-snoc zero = refl
zeros-snoc (suc n) = ap (λ (l : List ℕ). 0 ∷ l) (zeros-snoc n)

fixed_width-zero : (w : ℕ) → fixed_width w 0 ≡ zeros w
unfolding fixed_width
fixed_width-zero zero = refl
fixed_width-zero (suc w) = ap (λ (l : List ℕ). l ++ 0 ∷ []) (fixed_width-zero w) ∙ zeros-snoc w

quotient_small : (v w : ℕ) → v < 256 ^ suc w → v / 256 < 256 ^ w
quotient_small v w h = omega (arith, simp unary_clauses at h)

-- The shortest bytes of a number that fits the width are its bytes but for leading zeros.
abbrev Shortest : ℕ → ℕ → List ℕ → Type 0
Shortest w v bs = (length bs ≤ w) × (zeros (w - length bs) ++ bs ≡ fixed_width w v)

Shortest-snoc :
    (w v : ℕ) (bs : List ℕ) → Shortest w (v / 256) bs → Shortest (suc w) v (bs ++ (v % 256) ∷ [])
unfolding fixed_width
Shortest-snoc w v bs (fits, padded) =
    let size : length (bs ++ (v % 256) ∷ []) ≡ suc (length bs) =
      omega (arith, length-append bs ((v % 256) ∷ [])) in
    let gap : suc w - length (bs ++ (v % 256) ∷ []) ≡ w - length bs = omega (arith, size) in
    (
      omega (arith, size, fits),
      ap (λ (n : ℕ). zeros n ++ (bs ++ (v % 256) ∷ [])) gap
          ∙ sym (append_assoc (zeros (w - length bs)) bs ((v % 256) ∷ []))
          ∙ ap (λ (l : List ℕ). l ++ (v % 256) ∷ []) padded,
    )

all_left : (w : ℕ) → suc w - 0 ≡ suc w
all_left w = omega arith

be_bytes-Shortest : (w v : ℕ) → v < 256 ^ w → Shortest w v (be_bytes v)
unfolding fixed_width
be_bytes-Shortest zero v h =
    let none : v ≡ 0 = omega (arith, h) in
    subst (Shortest zero v) (sym (ap be_bytes none ∙ be_bytes-zero)) (omega arith, refl)
be_bytes-Shortest (suc w) zero h = subst (Shortest (suc w) zero) (sym be_bytes-zero) (
  omega arith,
  ap (λ (n : ℕ). zeros n ++ []) (all_left w)
      ∙ append-nil (zeros (suc w))
      ∙ sym (fixed_width-zero (suc w)),
)
be_bytes-Shortest (suc w) (suc n) h =
    subst (Shortest (suc w) (suc n)) (sym (be_bytes_step (suc n) (omega arith))) (
      Shortest-snoc w (suc n) (be_bytes (suc n / 256))
        (be_bytes-Shortest w (suc n / 256) (quotient_small (suc n) w h)))

-- They do not start with zero.
abbrev Leads : List ℕ → Type 0
Leads [] = ⊥
Leads (b ∷ bs) = 0 < b

Leads-append : (xs ys : List ℕ) → Leads xs → Leads (xs ++ ys)
Leads-append [] ys h = absurd h
Leads-append (x ∷ xs) ys h = h

be_bytes-Leads : (w v : ℕ) → v < 256 ^ w → 0 < v → Leads (be_bytes v)
be_bytes-Leads zero v h pos = absurd (omega (arith, h, pos))
be_bytes-Leads (suc w) v h pos = subst Leads (sym (be_bytes_step v pos)) (elim (zero_or (v / 256)) [
  | inl none ↦
      subst (λ (bs : List ℕ). Leads (bs ++ (v % 256) ∷ [])) (sym (ap be_bytes none ∙ be_bytes-zero))
        (omega (arith, none, pos))
  | inr some_left ↦
      Leads-append (be_bytes (v / 256)) ((v % 256) ∷ [])
        (be_bytes-Leads w (v / 256) (quotient_small v w h) some_left)
])
  where
    zero_or : (n : ℕ) → (n ≡ 0) ⊎ (0 < n)
    zero_or zero = inl refl
    zero_or (suc n) = inr (omega arith)

trimmed-Leads : (bs : List ℕ) → Leads bs → trimmed bs ≡ bs
unfolding trimmed
trimmed-Leads [] h = absurd h
trimmed-Leads (b ∷ []) h = refl
trimmed-Leads (b ∷ c ∷ bs) h = ground (arith, h)

trimmed-signed_content : (bs : List ℕ) → Leads bs → trimmed (signed_content bs) ≡ bs
trimmed-signed_content [] h = absurd h
trimmed-signed_content (b ∷ bs) h = elim (Bool-cases (ltb b 128)) [
  | inl small ↦ rw small (trimmed-Leads (b ∷ bs) h)
  | inr big ↦ rw big (unfold trimmed in trimmed-Leads (b ∷ bs) h)
]

-- The content of a positive number that fits becomes its bytes in the full width.
pub pad-integer_bytes :
    (w v : ℕ) → v < 256 ^ w → 0 < v → pad w (integer_bytes v) ≡ ok (fixed_width w v)
unfolding pad
pad-integer_bytes w v h pos =
    let (fits, padded) = be_bytes-Shortest w v h in
    ap (left_padded w) (trimmed-signed_content (be_bytes v) (be_bytes-Leads w v h pos))
    ∙ left_padded_lem w (be_bytes v) fits
    ∙ ap ok padded
  where
    left_padded_lem :
        (w : ℕ) (bs : List ℕ) → length bs ≤ w → left_padded w bs ≡ ok (zeros (w - length bs) ++ bs)
    left_padded_lem w bs h = ground (arith, h)

signed_content-length :
    (bs : List ℕ)
    → (0 < length (signed_content bs)) × (length (signed_content bs) ≤ suc (length bs))
signed_content-length [] = (omega arith, omega arith)
signed_content-length (b ∷ bs) = elim (Bool-cases (ltb b 128)) [
  | inl small ↦ rw small (omega arith, omega arith)
  | inr big ↦ rw big (omega arith, omega arith)
]

pub integer_bytes-length :
    (w v : ℕ) → v < 256 ^ w → (0 < length (integer_bytes v)) × (length (integer_bytes v) ≤ suc w)
integer_bytes-length w v h =
    let (fits, padded) = be_bytes-Shortest w v h in
    let (some_byte, most) = signed_content-length (be_bytes v) in
    (some_byte, omega (arith, most, fits))
