-- ===== src/Store/Withdrawals/Totals.antt =====
-- packages/db/src/withdrawal.ts: a reserved amount is part of what is reserved.
use porker_monorepo.Base.{
  ===_refl, All, Bool, Bool-cases, List, String, [], ap, arith, false, find, inl, inr, refl, some,
  subst, suc, sym, true, zero, ℕ, ◌&&◌, ◌===◌, ◌∙◌, ◌∷◌, ◌≡◌,
}
use porker_monorepo.Ledger.Integers.{int_laws, ltb_ℤ, negsuc, pos, ℤ, ◌+ℤ◌, ◌≤ℤ◌}
use porker_monorepo.Ledger.Totals.{part}
use porker_monorepo.Store.Withdrawals.{Withdrawal, is_same_id, reserved}
use porker_monorepo.Store.Withdrawals.Backed.{is_reserved, reserved_total}

pub positive-suc : (a : ℤ) → ltb_ℤ (pos 0) a ≡ true → (n : ℕ) × (a ≡ pos (suc n))
positive-suc (pos zero) h = absurd (ground arith)
positive-suc (pos (suc n)) h = (n, refl)
positive-suc (negsuc n) h = absurd (ground arith)

part-positive : (b : Bool) (a : ℤ) → ltb_ℤ (pos 0) a ≡ true → pos 0 ≤ℤ part b a
part-positive true a h = ground arith
part-positive false a h = omega arith

sum-positive : (a b : ℤ) → pos 0 ≤ℤ a → pos 0 ≤ℤ b → pos 0 ≤ℤ a +ℤ b
sum-positive a b h k = omega int_laws

reserved_total-positive :
    (wallet : String) (ws : List Withdrawal)
    → All (λ w. ltb_ℤ (pos 0) w.amount ≡ true) ws
    → pos 0 ≤ℤ reserved_total wallet ws
reserved_total-positive wallet [] h = omega arith
reserved_total-positive wallet (w ∷ ws) h =
    sum-positive (part (is_reserved w.status && w.wallet_address === wallet) w.amount)
      (reserved_total wallet ws)
      (part-positive (is_reserved w.status && w.wallet_address === wallet) w.amount h.0)
      (reserved_total-positive wallet ws h.1)

le-add_left : (a b : ℤ) → pos 0 ≤ℤ b → a ≤ℤ a +ℤ b
le-add_left a b h = omega int_laws

le-add_right : (a b c : ℤ) → pos 0 ≤ℤ b → a ≤ℤ c → a ≤ℤ b +ℤ c
le-add_right a b c h k = omega int_laws

pub not-ltb : (a b : ℤ) → a ≤ℤ b → ltb_ℤ b a ≡ false
not-ltb a b h = ground arith

pub amount-le-total :
    (id : String) (ws : List Withdrawal) {w : Withdrawal}
    → All (λ v. ltb_ℤ (pos 0) v.amount ≡ true) ws
    → find (is_same_id id) ws ≡ some w
    → w.status ≡ reserved
    → w.amount ≤ℤ reserved_total w.wallet_address ws
amount-le-total id [] k h r = cc
amount-le-total id (v ∷ ws) {w} k h r = elim (Bool-cases (is_same_id id v)) [
  | inl e ↦
      let here : v ≡ w = ground (arith, e, h) in
      let own : (is_reserved w.status && w.wallet_address === w.wallet_address) ≡ true =
        rw (r, ===_refl w.wallet_address) refl in
      let first : part (is_reserved v.status && v.wallet_address === w.wallet_address) v.amount
          ≡ w.amount =
        ap
          (λ (x : Withdrawal).
            part (is_reserved x.status && x.wallet_address === w.wallet_address) x.amount)
          here
        ∙ ap (λ b. part b w.amount) own in
      subst (λ a. w.amount ≤ℤ a +ℤ reserved_total w.wallet_address ws) (sym first)
        (le-add_left w.amount (reserved_total w.wallet_address ws)
          (reserved_total-positive w.wallet_address ws k.1))
  | inr e ↦
      le-add_right w.amount
        (part (is_reserved v.status && v.wallet_address === w.wallet_address) v.amount)
        (reserved_total w.wallet_address ws)
        (part-positive (is_reserved v.status && v.wallet_address === w.wallet_address) v.amount k.0)
        (amount-le-total id ws {w = w} k.1 (ground (arith, e, h)) r)
]
