-- ===== src/Prelude/Effects.antt =====
-- Code that changes a state and may throw. What was written before a throw stays written.
use mathlib.Core.Path.{◌≡◌, refl}
use sdidfy.Prelude.Fallible.{Result, ok, err}

abbrev pub resumes : {S E A B : Type 0} → (A → S → Result E B × S) → Result E A × S → Result E B × S
resumes f (ok a, s) = f a s
resumes f (err e, s) = (err e, s)

-- A run that returned went through both of its parts.
pub resumes-then :
    {S E A B C : Type 0} (f : A → S → Result E B × S) (out : Result E A × S) {b : B} {t : S}
    → resumes f out ≡ (ok b, t)
    → ((a : A) (u : S) → out ≡ (ok a, u) → f a u ≡ (ok b, t) → C)
    → C
resumes-then f (ok a, u) h k = k a u refl h
resumes-then f (err e, u) h k = absurd cc
