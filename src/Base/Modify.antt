-- ===== src/Base/Modify.antt =====
-- A change of one element of a list.
use Prim.Native.Nat.{ℕ, zero, suc, ◌+◌, ◌≤◌}
use mathlib.Core.Path.{◌≡◌, refl, ap}
use mathlib.Core.Logic.{inl, inr}
use mathlib.Core.Bool.{Bool, true, ◌||◌, ◌&&◌}
use mathlib.Core.List.{List, [], ◌∷◌, ◌++◌, map}
use mathlib.Core.Option.{some, none}
use native.Mathlib.Omega.{arith}
use porker_monorepo.Base.Sequences.{
  take, drop, get_elem?, modify, any, all, All, max_of, filter, find, find_index_from,
}
use porker_monorepo.Base.Tests.{Bool-cases}

module _ {ℓ} {A : Type ℓ} where
  pub map-modify {κ} :
      {B : Type κ} (g : A → B) (f : A → A) (xs : List A) (i : ℕ)
      → ((x : A) → g (f x) ≡ g x)
      → map g (modify xs i f) ≡ map g xs
  map-modify g f [] i h = refl
  map-modify g f (x ∷ xs) zero h = ap (λ y. y ∷ map g xs) (h x)
  map-modify g f (x ∷ xs) (suc i) h = ap (λ ys. g x ∷ ys) (map-modify g f xs i h)

  pub any-modify :
      (p : A → Bool) (f : A → A) (xs : List A) (i : ℕ)
      → ((x : A) → p (f x) ≡ p x)
      → any p (modify xs i f) ≡ any p xs
  any-modify p f [] i h = refl
  any-modify p f (x ∷ xs) zero h = ap (λ b. b || any p xs) (h x)
  any-modify p f (x ∷ xs) (suc i) h = ap (λ b. p x || b) (any-modify p f xs i h)

  pub All-modify :
      (P : A → Type 0) (f : A → A) (xs : List A) (i : ℕ) {x : A}
      → All P xs
      → get_elem? xs i ≡ some x
      → P (f x)
      → All P (modify xs i f)
  All-modify P f [] i k e h = tt
  All-modify P f (y ∷ ys) zero {x} k e h = let same : y ≡ x = ground (arith, e) in (rw same h, k.1)
  All-modify P f (y ∷ ys) (suc i) k e h = (k.0, All-modify P f ys i k.1 e h)

  pub All-get :
      (P : A → Type 0) (xs : List A) (i : ℕ) {x : A} → All P xs → get_elem? xs i ≡ some x → P x
  All-get P [] i k e = cc
  All-get P (y ∷ ys) zero {x} k e = let same : x ≡ y = ground (arith, e) in rw same k.0
  All-get P (y ∷ ys) (suc i) k e = All-get P ys i k.1 e

  pub All-map-imp :
      (P Q : A → Type 0) (f : A → A) (xs : List A)
      → ((x : A) → P x → Q (f x))
      → All P xs
      → All Q (map f xs)
  All-map-imp P Q f [] h k = tt
  All-map-imp P Q f (x ∷ xs) h k = (h x k.0, All-map-imp P Q f xs h k.1)

  pub All-imp : (P Q : A → Type 0) (xs : List A) → ((x : A) → P x → Q x) → All P xs → All Q xs
  All-imp P Q [] h k = tt
  All-imp P Q (x ∷ xs) h k = (h x k.0, All-imp P Q xs h k.1)

  -- The elements that pass, as statements.
  pub all-All : (p : A → Bool) (xs : List A) → all p xs ≡ true → All (λ x. p x ≡ true) xs
  all-All p [] h = tt
  all-All p (x ∷ xs) h = (ground arith, all-All p xs (ground arith))

  pub All-all : (p : A → Bool) (xs : List A) → All (λ x. p x ≡ true) xs → all p xs ≡ true
  All-all p [] k = refl
  All-all p (x ∷ xs) k = ground (arith, All-all p xs k.1)

  pub max_of-All : (f : A → ℕ) (n : ℕ) (xs : List A) → max_of (map f xs) ≤ n → All (λ x. f x ≤ n) xs
  max_of-All f n [] h = tt
  max_of-All f n (x ∷ xs) h = (omega arith, max_of-All f n xs (omega arith))

  pub All-max_of : (f : A → ℕ) (n : ℕ) (xs : List A) → All (λ x. f x ≤ n) xs → max_of (map f xs) ≤ n
  All-max_of f n [] k = omega arith
  All-max_of f n (x ∷ xs) k = omega (arith, k.0, All-max_of f n xs k.1)

  pub all-append : (p : A → Bool) (xs ys : List A) → all p (xs ++ ys) ≡ (all p xs && all p ys)
  all-append p [] ys = refl
  all-append p (x ∷ xs) ys = ground (arith, all-append p xs ys)

  pub all-filter : (p q : A → Bool) (xs : List A) → all p xs ≡ true → all p (filter q xs) ≡ true
  all-filter p q [] h = refl
  all-filter p q (x ∷ xs) h = ground (arith, all-filter p q xs)

  -- The index that is found is that of the element that `find` finds.
  pub find_index_from-some :
      (p : A → Bool) (k : ℕ) (xs : List A) {j : ℕ}
      → find_index_from k p xs ≡ some j
      → (i : ℕ) × (x : A) × (j ≡ k + i)
        × (get_elem? xs i ≡ some x)
        × (p x ≡ true)
        × (find p xs ≡ some x)
  find_index_from-some p k [] h = cc
  find_index_from-some p k (x ∷ xs) {j} h = elim (Bool-cases (p x)) [
    | inl e ↦ (0, x, ground (arith, e), refl, e, rw e refl)
    | inr e ↦
        let (i, y, ej, at, passes, found) =
          find_index_from-some p (suc k) xs {j = j} (ground (arith, e)) in
        (suc i, y, omega arith, at, passes, rw e found)
  ]

module _ {ℓ} {A : Type ℓ} (P : A → Type 0) where
  pub All-append : (xs ys : List A) → All P xs → All P ys → All P (xs ++ ys)
  All-append [] ys hx hy = hy
  All-append (x ∷ xs) ys hx hy = (hx.0, All-append xs ys hx.1 hy)

  pub All-left : (xs ys : List A) → All P (xs ++ ys) → All P xs
  All-left [] ys h = tt
  All-left (x ∷ xs) ys h = (h.0, All-left xs ys h.1)

  pub All-right : (xs ys : List A) → All P (xs ++ ys) → All P ys
  All-right [] ys h = h
  All-right (x ∷ xs) ys h = All-right xs ys h.1

  pub All-take : (n : ℕ) (xs : List A) → All P xs → All P (take n xs)
  All-take zero xs h = tt
  All-take (suc n) [] h = tt
  All-take (suc n) (x ∷ xs) h = (h.0, All-take n xs h.1)

  pub All-drop : (n : ℕ) (xs : List A) → All P xs → All P (drop n xs)
  All-drop zero xs h = h
  All-drop (suc n) [] h = tt
  All-drop (suc n) (x ∷ xs) h = All-drop n xs h.1

module _ {ℓ} {A : Type ℓ} where
  pub find_index_from-none :
      (p : A → Bool) (k : ℕ) (xs : List A) → find_index_from k p xs ≡ none → find p xs ≡ none
  find_index_from-none p k [] h = refl
  find_index_from-none p k (x ∷ xs) h = elim (Bool-cases (p x)) [
    | inl e ↦ absurd (ground (arith, e))
    | inr e ↦ rw e (find_index_from-none p (suc k) xs (ground (arith, e)))
  ]
