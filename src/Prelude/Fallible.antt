-- ===== src/Prelude/Fallible.antt =====
-- Code that throws: a value or an error. The type of errors is each component's own.
use mathlib.Core.Path.{◌≡◌, refl, ap}
use mathlib.Core.Logic.{◌≢◌}
use mathlib.Core.Bool.{Bool, true, false, false≢true}
use mathlib.Core.Option.{Option, none, some}

pub data Result (E A : Type 0) : Type 0 where
  err : E → Result E A
  ok : A → Result E A

-- `if (test) throw e;`
abbrev pub throw_if : {E : Type 0} → Bool → E → Result E (Unit {0})
throw_if false e = ok tt
throw_if true e = err e

-- The rest of the code runs on the value of what came before, or not at all.
infixl 5 ◌>>=◌
abbrev pub ◌>>=◌ : {E A B : Type 0} → Result E A → (A → Result E B) → Result E B
err thrown >>= next = err thrown
ok value >>= next = next value

infixl 5 ◌>>◌
abbrev pub ◌>>◌ : {E B : Type 0} → Result E (Unit {0}) → Result E B → Result E B
check >> next = check >>= λ _. next

-- Inversion of a successful bind, for proofs where the parts stay shut.
pub >>=-eq-ok :
    {E A B : Type 0} (start : Result E A) (next : A → Result E B) {answer : B}
    → (start >>= next) ≡ ok answer
    → (found : A) × (start ≡ ok found) × (next found ≡ ok answer)
>>=-eq-ok (err thrown) next returns = cc
>>=-eq-ok (ok found) next returns = (found, refl, returns)

-- Inversion of a check that did not throw.
pub throw_if-eq-ok :
    {E B : Type 0} (t : Bool) (e : E) (k : Result E B) {b : B}
    → (throw_if t e >>= λ _. k) ≡ ok b
    → (t ≡ false) × (k ≡ ok b)
throw_if-eq-ok true e k h = cc
throw_if-eq-ok false e k h = (refl, h)

pub ok-injective : {E A : Type 0} {a b : A} → ◌≡◌ {A = Result E A} (ok a) (ok b) → a ≡ b
ok-injective h = cc

pub err-ne-ok : {E A : Type 0} {e : E} {a : A} → ◌≡◌ {A = Result E A} (err e) (ok a) → ⊥
err-ne-ok h = cc

pub >>-eq-ok :
    {E B : Type 0} (check : Result E (Unit {0})) (next : Result E B) {answer : B}
    → (check >> next) ≡ ok answer
    → (check ≡ ok tt) × (next ≡ ok answer)
>>-eq-ok (err thrown) next returns = cc
>>-eq-ok (ok tt) next returns = (refl, returns)

pub some-injective {ℓ} : {A : Type ℓ} {a b : A} → some a ≡ some b → a ≡ b
some-injective {A = A} {a} e = ap (λ (o : Option A). elim o [ none ↦ a | some x ↦ x ]) e

pub none≢some {ℓ} : {A : Type ℓ} {a : A} → none ≢ some a
none≢some {A = A} e = false≢true (ap (λ (o : Option A). elim o [ none ↦ false | some x ↦ true ]) e)
