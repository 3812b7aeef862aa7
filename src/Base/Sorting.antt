-- ===== src/Base/Sorting.antt =====
-- `sort` and `to_set` on the elements of a list.
use Prim.Native.Nat.{ℕ, suc, ◌+◌, ◌≤◌}
use mathlib.Core.Path.{◌≡◌, refl, ap, ◌∙◌}
use mathlib.Core.Logic.{◌↔◌, inl, inr}
use mathlib.Core.Bool.{Bool, true, false, not, ◌||◌}
use mathlib.Core.List.{List, [], ◌∷◌}
use native.Mathlib.Omega.{arith}
use porker_monorepo.Base.Tests.{if◌then◌else◌, Bool-cases}
use mathlib.Core.Option.{some}
use porker_monorepo.Base.Sequences.{
  All, get_elem?, length, filter, to_set, any, insert_sorted, sort,
}
use porker_monorepo.Base.Sums.{count_by}

module _ {ℓ} {A : Type ℓ} (before : A → A → Bool) where
  count-insert_sorted :
      (p : A → Bool) (x : A) (ys : List A)
      → count_by p (insert_sorted before x ys) ≡ (if p x then 1 else 0) + count_by p ys
  count-insert_sorted p x [] = refl
  count-insert_sorted p x (y ∷ ys) = ground (arith, count-insert_sorted p x ys)

  pub count-sort : (p : A → Bool) (xs : List A) → count_by p (sort before xs) ≡ count_by p xs
  count-sort p [] = refl
  count-sort p (x ∷ xs) =
      count-insert_sorted p x (sort before xs)
      ∙ ap (λ n. (if p x then 1 else 0) + n) (count-sort p xs)

  any-insert_sorted :
      (p : A → Bool) (x : A) (ys : List A) → any p (insert_sorted before x ys) ≡ (p x || any p ys)
  any-insert_sorted p x [] = refl
  any-insert_sorted p x (y ∷ ys) = ground (arith, any-insert_sorted p x ys)

  pub any-sort : (p : A → Bool) (xs : List A) → any p (sort before xs) ≡ any p xs
  any-sort p [] = refl
  any-sort p (x ∷ xs) = any-insert_sorted p x (sort before xs) ∙ ap (λ b. p x || b) (any-sort p xs)

  length-insert_sorted :
      (x : A) (ys : List A) → length (insert_sorted before x ys) ≡ suc (length ys)
  length-insert_sorted x [] = refl
  length-insert_sorted x (y ∷ ys) = ground (arith, length-insert_sorted x ys)

  pub length-sort : (xs : List A) → length (sort before xs) ≡ length xs
  length-sort [] = refl
  length-sort (x ∷ xs) = length-insert_sorted x (sort before xs) ∙ ap suc (length-sort xs)

module _ {ℓ} {A : Type ℓ} where
  pub count-filter-le : (p q : A → Bool) (xs : List A) → count_by p (filter q xs) ≤ count_by p xs
  count-filter-le p q [] = omega arith
  count-filter-le p q (x ∷ xs) = ground (arith, count-filter-le p q xs)

  pub any-filter :
      (p q : A → Bool) (xs : List A)
      → ((x : A) → p x ≡ true → q x ≡ true)
      → any p (filter q xs) ≡ any p xs
  any-filter p q [] h = refl
  any-filter p q (x ∷ xs) h = ground (arith, any-filter p q xs h, h x)

  pub any-count : (p : A → Bool) (xs : List A) → any p xs ≡ false → count_by p xs ≡ 0
  any-count p [] h = refl
  any-count p (x ∷ xs) h = ground (arith, any-count p xs)

  pub count-any : (p : A → Bool) (xs : List A) → count_by p xs ≡ 0 → any p xs ≡ false
  count-any p [] h = refl
  count-any p (x ∷ xs) h = ground (arith, count-any p xs)

module _ {ℓ} {A : Type ℓ} (eq : A → A → Bool) (eq_iff : (a b : A) → (eq a b ≡ true) ↔ (a ≡ b)) where
  pub any-to_set : (a : A) (xs : List A) → any (λ b. eq b a) (to_set eq xs) ≡ any (λ b. eq b a) xs
  any-to_set a [] = refl
  any-to_set a (x ∷ xs) = elim (Bool-cases (eq x a)) [
    | inl e ↦ rw e refl
    | inr e ↦ rw e (
        any-filter (λ b. eq b a) (λ y. not (eq y x)) (to_set eq xs)
          (λ y h. ground (arith, eq_iff y a, eq_iff y x, eq_iff x a, e, h))
        ∙ any-to_set a xs)
  ]

  count-filter_same :
      (a x : A) (xs : List A)
      → eq x a ≡ true
      → count_by (λ b. eq b a) (filter (λ y. not (eq y x)) xs) ≡ 0
  count-filter_same a x [] h = refl
  count-filter_same a x (y ∷ ys) h =
      ground (arith, count-filter_same a x ys h, eq_iff x a, eq_iff y a, eq_iff y x)

  pub count-to_set-le : (a : A) (xs : List A) → count_by (λ b. eq b a) (to_set eq xs) ≤ 1
  count-to_set-le a [] = omega arith
  count-to_set-le a (x ∷ xs) = ground (
    arith,
    count-filter_same a x (to_set eq xs),
    count-to_set-le a xs,
    count-filter-le (λ b. eq b a) (λ y. not (eq y x)) (to_set eq xs),
  )

module _ {ℓ} {A : Type ℓ} where
  pub any-count-pos : (p : A → Bool) (xs : List A) → any p xs ≡ true → 1 ≤ count_by p xs
  any-count-pos p [] h = cc
  any-count-pos p (x ∷ xs) h = ground (arith, any-count-pos p xs)

  -- Where the test holds of some element, it holds of one at an index.
  pub any-get :
      (q : A → Bool) (xs : List A)
      → any q xs ≡ true
      → (i : ℕ) × (x : A) × (get_elem? xs i ≡ some x) × (q x ≡ true)
  any-get q [] h = cc
  any-get q (x ∷ xs) h = elim (Bool-cases (q x)) [
    | inl e ↦ (0, x, refl, e)
    | inr e ↦ let (i, y, at, k) = any-get q xs (ground (arith, e)) in (suc i, y, at, k)
  ]

  pub All-filter : (P : A → Type 0) (q : A → Bool) (xs : List A) → All P xs → All P (filter q xs)
  All-filter P q [] k = tt
  All-filter P q (x ∷ xs) k = elim (Bool-cases (q x)) [
    | inl e ↦ rw e (k.0, All-filter P q xs k.1)
    | inr e ↦ rw e (All-filter P q xs k.1)
  ]

  pub All-to_set :
      (P : A → Type 0) (eq : A → A → Bool) (xs : List A) → All P xs → All P (to_set eq xs)
  All-to_set P eq [] k = tt
  All-to_set P eq (x ∷ xs) k =
      (k.0, All-filter P (λ y. not (eq y x)) (to_set eq xs) (All-to_set P eq xs k.1))

  All-insert_sorted :
      (P : A → Type 0) (b : A → A → Bool) (x : A) (ys : List A)
      → P x
      → All P ys
      → All P (insert_sorted b x ys)
  All-insert_sorted P b x [] h k = (h, tt)
  All-insert_sorted P b x (y ∷ ys) h k = elim (Bool-cases (b y x)) [
    | inl e ↦ rw e (k.0, All-insert_sorted P b x ys h k.1)
    | inr e ↦ rw e (h, k)
  ]

  pub All-sort : (P : A → Type 0) (b : A → A → Bool) (xs : List A) → All P xs → All P (sort b xs)
  All-sort P b [] k = tt
  All-sort P b (x ∷ xs) k = All-insert_sorted P b x (sort b xs) k.0 (All-sort P b xs k.1)
