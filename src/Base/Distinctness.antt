-- ===== src/Base/Distinctness.antt =====
-- `new Set(xs).size === xs.length`: no element occurs twice.
use Prim.Native.Nat.{◌≤◌}
use mathlib.Core.Path.{◌≡◌, refl}
use mathlib.Core.Logic.{◌↔◌, inl, inr}
use mathlib.Core.Bool.{Bool, true, false, not}
use mathlib.Core.List.{List, [], ◌∷◌}
use native.Mathlib.Omega.{arith}
use porker_monorepo.Base.Tests.{Bool-cases}
use porker_monorepo.Base.Sequences.{length, filter, to_set, length-filter-le}
use porker_monorepo.Base.Sums.{count_by}

-- Under the equality `eq` no element occurs twice.
abbrev pub Unique {ℓ} : {A : Type ℓ} → (A → A → Bool) → List A → Type ℓ
Unique {A} eq xs = (a : A) → count_by (λ b. eq b a) xs ≤ 1

module _ {ℓ} {A : Type ℓ} (eq : A → A → Bool) (eq_iff : (a b : A) → (eq a b ≡ true) ↔ (a ≡ b)) where
  count-filter :
      (a b : A) (xs : List A)
      → eq a b ≡ false
      → count_by (λ c. eq c a) (filter (λ y. not (eq y b)) xs) ≡ count_by (λ c. eq c a) xs
  count-filter a b [] h = refl
  count-filter a b (x ∷ xs) h =
      ground (arith, count-filter a b xs h, eq_iff x a, eq_iff x b, eq_iff a b)

  count-to_set :
      (a : A) (xs : List A)
      → count_by (λ c. eq c a) xs ≡ 0
      → count_by (λ c. eq c a) (to_set eq xs) ≡ 0
  count-to_set a [] h = refl
  count-to_set a (x ∷ xs) h =
      ground (arith, count-to_set a xs, count-filter a x (to_set eq xs), eq_iff x a, eq_iff a x)

  count_of_to_set :
      (a : A) (xs : List A)
      → count_by (λ c. eq c a) (to_set eq xs) ≡ 0
      → count_by (λ c. eq c a) xs ≡ 0
  count_of_to_set a [] h = refl
  count_of_to_set a (x ∷ xs) h =
      ground (arith, count_of_to_set a xs, count-filter a x (to_set eq xs), eq_iff x a, eq_iff a x)

  length-filter-full :
      (a : A) (xs : List A)
      → length (filter (λ y. not (eq y a)) xs) ≡ length xs
      → count_by (λ c. eq c a) xs ≡ 0
  length-filter-full a [] h = refl
  length-filter-full a (x ∷ xs) h =
      ground (arith, length-filter-full a xs, length-filter-le (λ y. not (eq y a)) xs)

  filter-absent :
      (a : A) (xs : List A)
      → count_by (λ c. eq c a) xs ≡ 0
      → length (filter (λ y. not (eq y a)) xs) ≡ length xs
  filter-absent a [] h = refl
  filter-absent a (x ∷ xs) h = ground (arith, filter-absent a xs)

  length-to_set-le : (xs : List A) → length (to_set eq xs) ≤ length xs
  length-to_set-le [] = omega arith
  length-to_set-le (x ∷ xs) =
      omega (arith, length-to_set-le xs, length-filter-le (λ y. not (eq y x)) (to_set eq xs))

  pub to_set-Unique : (xs : List A) → length (to_set eq xs) ≡ length xs → Unique eq xs
  to_set-Unique [] h a = omega arith
  to_set-Unique (x ∷ xs) h a =
      let le1 = length-to_set-le xs in
      let le2 = length-filter-le (λ y. not (eq y x)) (to_set eq xs) in
      let rest : length (to_set eq xs) ≡ length xs = omega arith in
      let fresh : count_by (λ c. eq c x) xs ≡ 0 =
        count_of_to_set x xs (length-filter-full x (to_set eq xs) (omega arith)) in
      elim (Bool-cases (eq x a)) [
        | inl same ↦ ground (arith, fresh, (eq_iff x a).0 same, same)
        | inr other ↦ ground (arith, to_set-Unique xs rest a, other)
      ]

  pub Unique-to_set : (xs : List A) → Unique eq xs → length (to_set eq xs) ≡ length xs
  Unique-to_set [] u = refl
  Unique-to_set (x ∷ xs) u =
      let rest : length (to_set eq xs) ≡ length xs = Unique-to_set xs (λ a. ground (arith, u a)) in
      let fresh : count_by (λ c. eq c x) xs ≡ 0 = ground (arith, u x, (eq_iff x x).1 refl) in
      let none_left = filter-absent x (to_set eq xs) (count-to_set x xs fresh) in omega arith
