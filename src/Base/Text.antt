-- ===== src/Base/Text.antt =====
-- Template literals, and the decimal form of a number in them.
use Prim.Native.Nat.{ℕ, zero, suc, ◌+◌, ◌/◌, ◌%◌}
use Prim.Native.String
use Prim.Native.String.{String}
use Prim.Native.Char.{Char}
use mathlib.Core.Path.{◌≡◌, sym, ap, ◌∙◌}
use mathlib.Core.Logic.{◌≢◌, inl, inr}
use mathlib.Core.Bool.{true}
use native.Mathlib.Omega.{arith}
use text.Mathlib.TextLemmas.{
  append_assoc, append_cancel_left, append_cancel_right, cons-append, cons-ne-nil,
  head-eq_of_cons-eq,
}
use mathlib.Core.List.{List, [], ◌∷◌}
use porker_monorepo.Base.Tests.{===_iff, ===_ne, Bool-cases, if◌then◌else◌, ◌==◌, ◌===◌}

-- The parts of a template literal, one after the other.
abbrev pub template : List String → String
template [] = ""
template (part ∷ parts) = String.◌++◌ part (template parts)

digit : ℕ → String
digit zero = "0"
digit (suc zero) = "1"
digit (suc (suc zero)) = "2"
digit (suc (suc (suc zero))) = "3"
digit (suc (suc (suc (suc zero)))) = "4"
digit (suc (suc (suc (suc (suc zero))))) = "5"
digit (suc (suc (suc (suc (suc (suc zero)))))) = "6"
digit (suc (suc (suc (suc (suc (suc (suc zero))))))) = "7"
digit (suc (suc (suc (suc (suc (suc (suc (suc zero)))))))) = "8"
digit (suc (suc (suc (suc (suc (suc (suc (suc (suc n))))))))) = "9"

-- A number has fewer digits than the fuel, which is the number itself and one more.
digits : ℕ → ℕ → String → String
unfolding digit
digits zero n tail = tail
digits (suc fuel) n tail =
    let shorter = digits fuel (n / 10) (String.◌++◌ (digit (n % 10)) tail) in
    if n / 10 == 0 then String.◌++◌ (digit (n % 10)) tail else shorter

-- `String(n)`.
unfoldable pub decimal : ℕ → String
unfolding digits
decimal n = digits (n + 1) n ""

-- Texts that begin with different characters are different.
pub append-head :
    (c d : Char) (s t w v : String)
    → String.◌++◌ (String.◌∷◌ c s) w ≡ String.◌++◌ (String.◌∷◌ d t) v
    → c ≡ d
append-head c d s t w v h = head-eq_of_cons-eq (sym (cons-append c s w) ∙ h ∙ cons-append d t v)

pub append-injective : (s t v : String) → String.◌++◌ s t ≡ String.◌++◌ s v → t ≡ v
append-injective s t v h = append_cancel_left s t v h

-- The last part of a template literal is read back from it.
pub template-last : (s t v : String) → template (s ∷ t ∷ []) ≡ template (s ∷ v ∷ []) → t ≡ v
template-last s t v h =
    append_cancel_right t v "" (append_cancel_left s (String.◌++◌ t "") (String.◌++◌ v "") h)

-- A template literal that begins with a character is not the empty text.
pub append-ne-nil : (c : Char) (s t : String) → String.◌++◌ (String.◌∷◌ c s) t ≢ ""
append-ne-nil c s t h = cons-ne-nil c (String.◌++◌ s t) (sym (cons-append c s t) ∙ h)

-- Two texts that differ after a common beginning are different.
pub append-apart :
    (c d : Char) (p s t w v : String)
    → c ≢ d
    → String.◌++◌ (String.◌++◌ p (String.◌∷◌ c s)) w
      ≢ String.◌++◌ (String.◌++◌ p (String.◌∷◌ d t)) v
append-apart c d p s t w v apart h = apart (
    append-head c d s t w v (
      append_cancel_left p (String.◌++◌ (String.◌∷◌ c s) w) (String.◌++◌ (String.◌∷◌ d t) v)
        (sym (append_assoc p (String.◌∷◌ c s) w) ∙ h ∙ append_assoc p (String.◌∷◌ d t) v)))

pub append-regroup :
    (s t v : String) → String.◌++◌ s (String.◌++◌ t v) ≡ String.◌++◌ (String.◌++◌ s t) v
append-regroup s t v = sym (append_assoc s t v)

-- Two template literals with the same first part are the same exactly if their last parts are.
pub template-same : (s v w : String) → (template (s ∷ v ∷ []) === template (s ∷ w ∷ [])) ≡ (v === w)
template-same s v w = elim (Bool-cases (v === w)) [
  | inl e ↦
      let same : v ≡ w = (===_iff v w).0 e in
      let whole : (template (s ∷ v ∷ []) === template (s ∷ w ∷ [])) ≡ true =
        (===_iff (template (s ∷ v ∷ [])) (template (s ∷ w ∷ []))).1
          (ap (λ x. template (s ∷ x ∷ [])) same) in
      whole ∙ sym e
  | inr e ↦
      let apart : v ≢ w = λ same. absurd (ground (arith, (===_iff v w).1 same, e)) in
      ===_ne (template (s ∷ v ∷ [])) (template (s ∷ w ∷ [])) (λ h. apart (template-last s v w h))
      ∙ sym e
]
