-- ===== src/Base/Sums.antt =====
-- Sums over lists, and how they move under the list operations.
use Prim.Native.Nat.{ℕ, zero, suc, ◌+◌}
use mathlib.Core.Path.{◌≡◌, refl, ap}
use mathlib.Core.List.{List, [], ◌∷◌, ◌++◌}
use mathlib.Core.Option.{some}
use mathlib.Core.Bool.{Bool}
use native.Mathlib.Omega.{arith}
use porker_monorepo.Base.Tests.{if◌then◌else◌}
use porker_monorepo.Base.Sequences.{get_elem?, modify, length, filter}

module _ {ℓ} {A : Type ℓ} where
  abbrev pub sum_by : (A → ℕ) → List A → ℕ
  sum_by f [] = 0
  sum_by f (x ∷ xs) = f x + sum_by f xs

  -- How many elements pass.
  abbrev pub count_by : (A → Bool) → List A → ℕ
  count_by p [] = 0
  count_by p (x ∷ xs) = (if p x then 1 else 0) + count_by p xs

  pub sum_by-append : (f : A → ℕ) (xs ys : List A) → sum_by f (xs ++ ys) ≡ sum_by f xs + sum_by f ys
  sum_by-append f [] ys = omega arith
  sum_by-append f (x ∷ xs) ys = omega (arith, sum_by-append f xs ys)

  pub count_by-append :
      (p : A → Bool) (xs ys : List A) → count_by p (xs ++ ys) ≡ count_by p xs + count_by p ys
  count_by-append p [] ys = omega arith
  count_by-append p (x ∷ xs) ys = omega (arith, count_by-append p xs ys)

  -- A change of one element that keeps its weight keeps the sum.
  pub sum_by-modify :
      (f : A → ℕ) (g : A → A) (xs : List A) (i : ℕ) {x : A}
      → get_elem? xs i ≡ some x
      → f (g x) ≡ f x
      → sum_by f (modify xs i g) ≡ sum_by f xs
  sum_by-modify f g [] i h e = refl
  sum_by-modify f g (y ∷ ys) zero h e = ground (arith, e)
  sum_by-modify f g (y ∷ ys) (suc i) h e = ap (λ n. f y + n) (sum_by-modify f g ys i h e)

  pub count_by-filter : (p : A → Bool) (xs : List A) → length (filter p xs) ≡ count_by p xs
  count_by-filter p [] = refl
  count_by-filter p (x ∷ xs) = ground (arith, count_by-filter p xs)
