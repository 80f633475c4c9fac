-- ===== src/Prelude/Words.antt =====
-- Texts: `===` on strings, and the array methods `includes`, `every` and `some`.
use Prim.Native.String.{String}
use text.Mathlib.Text.{◌==◌}
use text.Mathlib.TextEquality.{eq_iff}
use mathlib.Core.Path.{◌≡◌, refl}
use mathlib.Core.Logic.{◌↔◌}
use mathlib.Core.Bool.{Bool, true, false, ◌&&◌, ◌||◌}
use mathlib.Core.List.{List, [], ◌∷◌}

abbrev pub same : String → String → Bool
same a b = a == b

pub same_iff : (a b : String) → (same a b ≡ true) ↔ (a ≡ b)
same_iff = eq_iff

pub same_refl : (a : String) → same a a ≡ true
same_refl a = (eq_iff a a).1 refl

-- `xs.some(p)`; `any` and `All` of Lists are for the proofs.
abbrev pub some_of : {A : Type 0} → (A → Bool) → List A → Bool
some_of p [] = false
some_of p (x ∷ xs) = p x || some_of p xs

abbrev pub every : {A : Type 0} → (A → Bool) → List A → Bool
every p [] = true
every p (x ∷ xs) = p x && every p xs

abbrev pub includes : List String → String → Bool
includes xs a = some_of (λ x. same x a) xs
