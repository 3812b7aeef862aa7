-- ===== src/Store/Attempts.antt =====
-- packages/db/src: the loop of the attempts at a transaction.
use porker_monorepo.Base.{
  Option, Option-cases, Result, String, Yields, ap, arith, inl, inr, none, some, subst, suc, sym,
  zero, ℕ, ◌+◌, ◌-◌, ◌<◌, ◌∙◌, ◌≡◌,
}
use porker_monorepo.Store.{Caught, FailureCode, StoreError, after_catch, attempts, try_again}

module _ {A : Type 0} where
  -- If the `catch` tries again after each of the first `k` attempts, and the code_then one commits, the
  -- outcome is that of its transaction.
  pub attempts-commits :
      (exhausted : String) (failure : ℕ → Option FailureCode) (body : ℕ → Result StoreError A)
      (catch_error : ℕ → ℕ → FailureCode → Caught A) (k left attempt : ℕ)
      → k < left
      → ((i : ℕ)
          → i < k
          → (code : FailureCode) × (failure (attempt + i) ≡ some code)
            × (catch_error (attempt + i) (left - 1 - i) code ≡ try_again))
      → failure (attempt + k) ≡ none
      → attempts exhausted failure body catch_error left attempt ≡ body (attempt + k)
  unfolding attempts
  attempts-commits exhausted failure body catch_error k zero attempt h c f = absurd (omega arith)
  attempts-commits exhausted failure body catch_error zero (suc left) attempt h c f =
      let at_once : attempt ≡ attempt + 0 = omega arith in
      let now : failure attempt ≡ none = subst (λ n. failure n ≡ none) (sym at_once) f in
      rw now (ap body at_once)
  attempts-commits exhausted failure body catch_error (suc k) (suc left) attempt h c f =
      let (code, failed, caught) = c 0 (omega arith) in
      let at_once : attempt + 0 ≡ attempt = omega arith in
      let all_left : suc left - 1 - 0 ≡ left = omega arith in
      let shift : (i : ℕ) → attempt + suc i ≡ attempt + 1 + i = λ i. omega arith in
      let fewer : (i : ℕ) → suc left - 1 - suc i ≡ left - 1 - i = λ i. omega arith in
      let now : failure attempt ≡ some code = subst (λ n. failure n ≡ some code) at_once failed in
      let again : catch_error attempt left code ≡ try_again =
        subst (λ n. catch_error n left code ≡ try_again) at_once
          (subst (λ n. catch_error (attempt + 0) n code ≡ try_again) all_left caught) in
      let later =
        attempts-commits exhausted failure body catch_error k left (attempt + 1) (omega arith)
          (λ i low.
            let (code_then, broke, taken) = c (suc i) (omega arith) in
            (
              code_then,
              subst (λ n. failure n ≡ some code_then) (shift i) broke,
              subst (λ n. catch_error n (left - 1 - i) code_then ≡ try_again) (shift i)
                  (subst (λ n. catch_error (attempt + suc i) n code_then ≡ try_again) (fewer i)
                    taken),
            ))
          (subst (λ n. failure n ≡ none) (shift k) f) in
      rw (now, again) (later ∙ ap body (sym (shift k)))

  -- What holds after a commit, whichever attempt it is.
  pub attempts-Yields :
      (P : A → Type 0) (exhausted : String) (failure : ℕ → Option FailureCode)
      (body : ℕ → Result StoreError A) (catch_error : ℕ → ℕ → FailureCode → Caught A)
      (left attempt : ℕ)
      → ((i : ℕ) → Yields P (body i))
      → ((i n : ℕ) (code : FailureCode) (again : Result StoreError A)
          → Yields P again
          → Yields P (after_catch (catch_error i n code) again))
      → Yields P (attempts exhausted failure body catch_error left attempt)
  unfolding attempts
  attempts-Yields P exhausted failure body catch_error zero attempt h k = tt
  attempts-Yields P exhausted failure body catch_error (suc left) attempt h k =
      let later = attempts-Yields P exhausted failure body catch_error left (attempt + 1) h k in
      elim (Option-cases (failure attempt)) [
        | inl works ↦ rw works (h attempt)
        | inr (code, breaks) ↦ rw breaks (k attempt left code _ later)
      ]
