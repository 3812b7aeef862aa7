-- ===== src/Store/Withdrawals/Backed.antt =====
-- packages/db/src/withdrawal.ts: the amounts that are reserved, and the accounts that hold them.
use porker_monorepo.Base.{
  Bool, Bool-cases, List, String, [], ap, arith, count_by, false, find, inl, inr, map, refl, some,
  sym, true, ◌&&◌, ◌++◌, ◌===◌, ◌∙◌, ◌∷◌, ◌≡◌, ◌≤◌,
}
use porker_monorepo.Ledger.Integers.{int_laws, pos, ℤ, ◌+ℤ◌}
use porker_monorepo.Ledger.Totals.{part}
use porker_monorepo.Store.Rows.{updated}
use porker_monorepo.Store.Withdrawals.{
  Withdrawal, WithdrawalStatus, is_same_id, reserved, settled_with,
}

abbrev pub is_reserved : WithdrawalStatus → Bool
is_reserved reserved = true
is_reserved (settled_with o) = false

-- The sum of the reserved withdrawals of a wallet.
abbrev pub reserved_total : String → List Withdrawal → ℤ
reserved_total wallet [] = pos 0
reserved_total wallet (w ∷ ws) =
    part (is_reserved w.status && w.wallet_address === wallet) w.amount +ℤ reserved_total wallet ws

plus_assoc : (a b c : ℤ) → a +ℤ b +ℤ c ≡ a +ℤ (b +ℤ c)
plus_assoc a b c = omega int_laws

plus-swap : (a b c : ℤ) → a +ℤ (b +ℤ c) ≡ b +ℤ (a +ℤ c)
plus-swap a b c = omega int_laws

pub reserved_total-create :
    (wallet : String) (ws : List Withdrawal) (w : Withdrawal)
    → w.status ≡ reserved
    → reserved_total wallet (ws ++ w ∷ [])
      ≡ reserved_total wallet ws +ℤ part (w.wallet_address === wallet) w.amount
reserved_total-create wallet [] w h =
    let is : is_reserved w.status ≡ true = ap is_reserved h in
    let swap : (a : ℤ) → a +ℤ pos 0 ≡ pos 0 +ℤ a = λ a. omega int_laws in
    rw is (swap (part (w.wallet_address === wallet) w.amount))
reserved_total-create wallet (v ∷ ws) w h =
    let head = part (is_reserved v.status && v.wallet_address === wallet) v.amount in
    ap (λ r. head +ℤ r) (reserved_total-create wallet ws w h)
    ∙ sym (plus_assoc head (reserved_total wallet ws) (part (w.wallet_address === wallet) w.amount))

updated-none :
    (p : Withdrawal → Bool) (f : Withdrawal → Withdrawal) (ws : List Withdrawal)
    → count_by p ws ≡ 0
    → map (updated p f) ws ≡ ws
updated-none p f [] h = refl
updated-none p f (w ∷ ws) h = elim (Bool-cases (p w)) [
  | inl e ↦ absurd (ground (arith, e, h))
  | inr e ↦ rw e (ap (λ r. w ∷ r) (updated-none p f ws (ground (arith, e, h))))
]

-- When a reserved withdrawal is settled, the total falls by its amount.
pub reserved_total-settle :
    (wallet id : String) (f : Withdrawal → Withdrawal) (ws : List Withdrawal) {w : Withdrawal}
    → count_by (is_same_id id) ws ≤ 1
    → find (is_same_id id) ws ≡ some w
    → w.status ≡ reserved
    → ((r : Withdrawal) → is_reserved ((f r).status) ≡ false)
    → part (w.wallet_address === wallet) w.amount
        +ℤ reserved_total wallet (map (updated (is_same_id id) f) ws)
      ≡ reserved_total wallet ws
reserved_total-settle wallet id f [] once h r c = cc
reserved_total-settle wallet id f (v ∷ ws) {w} once h r c = elim (Bool-cases (is_same_id id v)) [
  | inl e ↦
      let here : v ≡ w = ground (arith, e, h) in
      let gone : count_by (is_same_id id) ws ≡ 0 = ground (arith, e, once) in
      let was : is_reserved v.status ≡ true =
        ap (λ (x : Withdrawal). is_reserved x.status) here ∙ ap is_reserved r in
      let rest = updated-none (is_same_id id) f ws gone in
      let zero_plus : (a : ℤ) → pos 0 +ℤ a ≡ a = λ a. omega int_laws in
      rw (e, rest, c v, was, zero_plus (reserved_total wallet ws))
        (ap
          (λ (x : Withdrawal).
            part (x.wallet_address === wallet) x.amount +ℤ reserved_total wallet ws)
          (sym here))
  | inr e ↦
      let later =
        reserved_total-settle wallet id f ws {w = w} (ground (arith, e, once))
          (ground (arith, e, h)) r c in
      let head = part (is_reserved v.status && v.wallet_address === wallet) v.amount in
      rw e (
        plus-swap (part (w.wallet_address === wallet) w.amount) head
          (reserved_total wallet (map (updated (is_same_id id) f) ws))
        ∙ ap (λ t. head +ℤ t) later)
]
