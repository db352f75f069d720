-- ===== src/Prelude/Codes.antt =====
-- Texts as lists of UTF-16 code units, for code that looks at single characters.
use Prim.Native.Nat.{ℕ}
use mathlib.Core.Path.{◌≡◌, refl}
use mathlib.Core.Bool.{Bool, true, false, ◌&&◌}
use mathlib.Core.Logic.{◌↔◌}
use mathlib.Core.List.{List, [], ◌∷◌}
use native.Mathlib.Omega.{arith}
use ac.Prelude.Tests.{eqb}

abbrev pub Text : Type 0
Text = List ℕ

abbrev pub same : Text → Text → Bool
same [] [] = true
same [] (b ∷ ys) = false
same (a ∷ xs) [] = false
same (a ∷ xs) (b ∷ ys) = eqb a b && same xs ys

pub same_iff : (a b : Text) → (same a b ≡ true) ↔ (a ≡ b)
same_iff [] [] = (λ h. refl, λ e. refl)
same_iff [] (b ∷ ys) = ((λ h. cc), λ e. cc)
same_iff (a ∷ xs) [] = ((λ h. cc), λ e. cc)
same_iff (a ∷ xs) (b ∷ ys) = ground (arith, same_iff xs ys)

pub same_refl : (a : Text) → same a a ≡ true
same_refl a = (same_iff a a).1 refl
