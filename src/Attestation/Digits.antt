-- ===== src/Attestation/Digits.antt =====
-- Numbers written in base `b`, most significant digit first, as the length and tag fields have them.
use mathlib.Core.Path.{ap₂}
use mathlib.Core.List.{append_assoc, append-nil}
use sdidfy.Prelude.{
  ℕ, zero, suc, ◌+◌, ◌*◌, ◌/◌, ◌%◌, ◌≤◌, ◌<◌, ◌≡◌, refl, sym, ap, ◌∙◌, true, false, List, [], ◌∷◌,
  ◌++◌, arith, ◌==◌, All,
}

abbrev pub IsByte : ℕ → Type 0
IsByte b = b < 256

-- `for (const b of bytes) value = value * 256 + b`
unfoldable pub big_endian : ℕ → List ℕ → ℕ
big_endian acc [] = acc
big_endian acc (b ∷ bs) = big_endian (acc * 256 + b) bs

-- The shortest digits of `n`, none for zero, each raised by `mark`.
unfoldable pub digits : (base mark fuel n : ℕ) → List ℕ
digits base mark zero n = []
digits base mark (suc f) n = elim (n == 0) [
  | true ↦ []
  | false ↦ digits base mark f (n / base) ++ (n % base + mark) ∷ []
]

module _ (mark : ℕ) where
  -- Any fuel from `n` on gives the same digits.
  pub digits_fuel_256 : (f g n : ℕ) → n ≤ f → n ≤ g → digits 256 mark f n ≡ digits 256 mark g n
  unfolding digits
  digits_fuel_256 zero zero n h k = refl
  digits_fuel_256 zero (suc g) n h k = ground arith
  digits_fuel_256 (suc f) zero n h k = ground arith
  digits_fuel_256 (suc f) (suc g) n h k = ground (arith, digits_fuel_256 f g (n / 256))

  pub digits_fuel_128 : (f g n : ℕ) → n ≤ f → n ≤ g → digits 128 mark f n ≡ digits 128 mark g n
  unfolding digits
  digits_fuel_128 zero zero n h k = refl
  digits_fuel_128 zero (suc g) n h k = ground arith
  digits_fuel_128 (suc f) zero n h k = ground arith
  digits_fuel_128 (suc f) (suc g) n h k = ground (arith, digits_fuel_128 f g (n / 128))

pub digits_step :
    (base mark f n : ℕ)
    → 0 < n
    → digits base mark (suc f) n ≡ digits base mark f (n / base) ++ (n % base + mark) ∷ []
unfolding digits
digits_step base mark f n h = ground arith

-- The bytes of a length field.
unfoldable pub be_bytes : ℕ → List ℕ
be_bytes n = digits 256 0 n n

-- The leading septets of a tag number, each with its continuation bit.
unfoldable pub septets : ℕ → List ℕ
septets n = digits 128 128 n n

pub be_bytes-zero : be_bytes 0 ≡ []
unfolding be_bytes digits
be_bytes-zero = refl

pub septets-zero : septets 0 ≡ []
unfolding septets digits
septets-zero = refl

pub be_bytes_step : (n : ℕ) → 0 < n → be_bytes n ≡ be_bytes (n / 256) ++ (n % 256) ∷ []
unfolding be_bytes
be_bytes_step zero h = absurd (omega arith)
be_bytes_step (suc n) h =
    rw
      (
        digits_step 256 0 n (suc n) h,
        digits_fuel_256 0 n (suc n / 256) (suc n / 256) (omega arith) (omega arith),
      )
      (ap (λ (d : ℕ). digits 256 0 (suc n / 256) (suc n / 256) ++ d ∷ []) (omega arith))

septets_step : (n : ℕ) → 0 < n → septets n ≡ septets (n / 128) ++ (n % 128 + 128) ∷ []
unfolding septets
septets_step zero h = absurd (omega arith)
septets_step (suc n) h = rw (
  digits_step 128 128 n (suc n) h,
  digits_fuel_128 128 n (suc n / 128) (suc n / 128) (omega arith) (omega arith),
)

-- One more digit.
pub be_bytes-snoc :
    (acc b : ℕ) → b < 256 → 0 < acc + b → be_bytes (acc * 256 + b) ≡ be_bytes acc ++ b ∷ []
be_bytes-snoc acc b hb pos =
    let q : (acc * 256 + b) / 256 ≡ acc = omega arith in
    let r : (acc * 256 + b) % 256 ≡ b = omega arith in
    be_bytes_step (acc * 256 + b) (omega arith) ∙ ap₂ (λ (m d : ℕ). be_bytes m ++ d ∷ []) q r

pub septets-snoc :
    (acc b : ℕ)
    → 128 ≤ b
    → b < 256
    → 128 < acc + b
    → septets (acc * 128 + b % 128) ≡ septets acc ++ b ∷ []
septets-snoc acc b lo hb pos =
    let q : (acc * 128 + b % 128) / 128 ≡ acc = omega arith in
    let r : (acc * 128 + b % 128) % 128 + 128 ≡ b = omega arith in
    septets_step (acc * 128 + b % 128) (omega arith) ∙ ap₂ (λ (m d : ℕ). septets m ++ d ∷ []) q r

-- The digits of the number that bytes stand for are those bytes, unless they start with zero.
pub be_bytes-big_endian :
    (bs : List ℕ) (acc : ℕ)
    → 0 < acc
    → All IsByte bs
    → be_bytes (big_endian acc bs) ≡ be_bytes acc ++ bs
unfolding big_endian
be_bytes-big_endian [] acc pos h = sym (append-nil _)
be_bytes-big_endian (b ∷ bs) acc pos (hb, h) =
    be_bytes-big_endian bs (acc * 256 + b) (omega arith) h
    ∙ ap (λ (l : List ℕ). l ++ bs) (be_bytes-snoc acc b hb (omega arith))
    ∙ append_assoc (be_bytes acc) (b ∷ []) bs
