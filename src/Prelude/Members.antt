-- ===== src/Prelude/Members.antt =====
-- Whether a number stands in a list.
use rewind.Prelude.Tests.{◌==◌}
use native.Mathlib.Omega.{arith}
use Prim.Native.Nat.{ℕ}
use mathlib.Core.Bool.{Bool, false, ◌||◌}
use mathlib.Core.List.{List, [], ◌∷◌, ◌++◌}
use mathlib.Core.Path.{◌≡◌, refl}

unfoldable pub has_nat : ℕ → List ℕ → Bool
has_nat n [] = false
has_nat n (x ∷ xs) = x == n || has_nat n xs

pub has_nat-append :
    (n : ℕ) (xs ys : List ℕ) → has_nat n (xs ++ ys) ≡ (has_nat n xs || has_nat n ys)
unfolding has_nat
has_nat-append n [] ys = refl
has_nat-append n (x ∷ xs) ys = ground (arith, has_nat-append n xs ys)
