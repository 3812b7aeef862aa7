-- ===== src/Base/Results.antt =====
-- Thrown errors as values: a computation returns a value or the error that it throws.
use mathlib.Core.Path.{◌≡◌, refl, subst}
use mathlib.Core.Logic.{◌⊎◌, inl, inr}
use mathlib.Core.Bool.{Bool, true, false, not}
use porker_monorepo.Base.Tests.{if◌then◌else◌}

pub data Result {ℓ} (E : Type 0) (A : Type ℓ) : Type ℓ where
  ok : A → Result E A
  err : E → Result E A

-- `if (!test) throw error`.
abbrev pub guard : {E : Type 0} → Bool → E → Result E (Unit {0})
guard true thrown = ok tt
guard false thrown = err thrown

infixl 5 ◌>>=◌ ◌>>◌
abbrev pub ◌>>=◌ {ℓ κ} :
    {E : Type 0} {A : Type ℓ} {B : Type κ} → Result E A → (A → Result E B) → Result E B
err thrown >>= next = err thrown
ok value >>= next = next value

abbrev pub ◌>>◌ {ℓ κ} :
    {E : Type 0} {A : Type κ} {B : Type ℓ} → Result E A → Result E B → Result E B
first >> second = first >>= λ _. second

pub guard-eq-ok :
    {E : Type 0} (test : Bool) (thrown : E) {u : Unit {0}} → guard test thrown ≡ ok u → test ≡ true
guard-eq-ok false thrown h = cc
guard-eq-ok true thrown h = refl

-- A chain that succeeds has a first step that does, with the value that the rest goes on with.
pub >>=-eq-ok {ℓ κ} :
    {E : Type 0} {A : Type ℓ} {B : Type κ} (first : Result E A) (next : A → Result E B) {last : B}
    → (first >>= next) ≡ ok last
    → (value : A) × (first ≡ ok value) × (next value ≡ ok last)
>>=-eq-ok (err thrown) next h = cc
>>=-eq-ok (ok value) next h = (value, refl, h)

-- Success, with a postcondition.
abbrev pub Returns {ℓ} : {E : Type 0} {A : Type ℓ} → Result E A → (A → Type 0) → Type 0
Returns (ok a) P = P a
Returns (err e) P = ⊥

pub Result-cases {ℓ} :
    {E : Type 0} {A : Type ℓ} (r : Result E A) → ((a : A) × (r ≡ ok a)) ⊎ ((e : E) × (r ≡ err e))
Result-cases (ok a) = inl (a, refl)
Result-cases (err e) = inr (e, refl)

pub ok-injective {ℓ} :
    {E : Type 0} {A : Type ℓ} {a b : A} → (◌≡◌ {A = Result E A} (ok a) (ok b)) → a ≡ b
ok-injective h = cc

-- `if (test) throw error; return value`.
pub guard-not {ℓ} :
    {E : Type 0} {A : Type ℓ} (test : Bool) (thrown : E) (value : A)
    → (guard (not test) thrown >>= λ _. ok value) ≡ (if test then err thrown else ok value)
guard-not true thrown value = refl
guard-not false thrown value = refl

-- What holds of the value, where there is no error.
abbrev pub Yields {ℓ} : {E : Type 0} {A : Type ℓ} → (A → Type 0) → Result E A → Type 0
Yields P (ok a) = P a
Yields P (err e) = Unit {0}

module _ {ℓ κ} {E : Type 0} {A : Type ℓ} {B : Type κ} where
  pub >>=-Yields :
      (P : B → Type 0) (first : Result E A) (next : A → Result E B)
      → ((a : A) → first ≡ ok a → Yields P (next a))
      → Yields P (first >>= next)
  >>=-Yields P (err e) next h = tt
  >>=-Yields P (ok a) next h = h a refl

module _ {ℓ} {E : Type 0} {A : Type ℓ} where
  pub if-Yields :
      (P : A → Type 0) (b : Bool) (r q : Result E A)
      → (b ≡ true → Yields P r)
      → (b ≡ false → Yields P q)
      → Yields P (if b then r else q)
  if-Yields P true r q h k = h refl
  if-Yields P false r q h k = k refl

  pub Yields-ok : (P : A → Type 0) (r : Result E A) {a : A} → r ≡ ok a → Yields P r → P a
  Yields-ok P r h y = subst (Yields P) h y
