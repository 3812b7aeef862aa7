-- ===== src/Engine/Hand/Order.antt =====
-- state.ts: the turns of the seats in the order of the deal.
use porker_monorepo.Base.{
  Bool-cases, List, arith, count_by, if◌then◌else◌, inl, inr, leb, ltb, subst, suc, zero, ℕ, ◌&&◌,
  ◌*◌, ◌+◌, ◌-◌, ◌<◌, ◌==◌, ◌≡◌, ◌≤◌,
}
use porker_monorepo.Engine.Hand.{deal_order, seat_after}

-- The next seat is the next number, or the first seat after the last one.
pub seat_after-lt : (seat n : ℕ) → seat + 1 < n → seat_after seat n ≡ seat + 1
seat_after-lt seat n h = grind arith

pub seat_after-last : (seat n : ℕ) → seat + 1 ≡ n → seat_after seat n ≡ 0
seat_after-last seat n h = grind arith

abbrev pub turns : ℕ → List ℕ → ℕ
turns j order = count_by (λ seat. seat == j) order

-- The seat after `k` turns from `s` that do not pass the last seat.
abbrev wrapped : ℕ → ℕ → ℕ
wrapped seat n = if seat == n then 0 else seat

deal_order-turn :
    (j r s n : ℕ)
    → s < n
    → turns j (deal_order (suc r) s n)
      ≡ (if s == j then 1 else 0) + turns j (deal_order r (wrapped (s + 1) n) n)
unfolding deal_order
deal_order-turn j r s n low = elim (Bool-cases (s + 1 == n)) [
  | inl e ↦
      let next : seat_after s n ≡ 0 = seat_after-last s n (ground (arith, e)) in
      rw (e, next) (ground arith)
  | inr e ↦
      let next : seat_after s n ≡ s + 1 = seat_after-lt s n (ground (arith, e)) in
      rw (e, next) (ground arith)
]

-- `k` turns that do not pass the last seat go to `k` seats in a row.
deal_order-run :
    (j k m r s n : ℕ)
    → s < n
    → s + k ≤ n
    → r ≡ k + m
    → turns j (deal_order r s n)
      ≡ (if leb s j && ltb j (s + k) then 1 else 0) + turns j (deal_order m (wrapped (s + k) n) n)
deal_order-run j zero m r s n low fits same =
    let stay : wrapped (s + 0) n ≡ s = ground arith in
    let all_left : r ≡ m = omega (arith, same) in rw (stay, all_left) (ground arith)
deal_order-run j (suc k) m zero s n low fits same = absurd (omega (arith, same))
deal_order-run j (suc k) m (suc r) s n low fits same = elim (Bool-cases (s + 1 == n)) [
  | inl e ↦
      let one : k ≡ 0 = ground (arith, e) in
      let left : r ≡ m = omega (arith, same, one) in
      let end : s + suc k ≡ s + 1 = omega (arith, one) in
      rw (end, ← left) (ground (arith, deal_order-turn j r s n low))
  | inr e ↦
      let next : wrapped (s + 1) n ≡ s + 1 = ground (arith, e) in
      let later =
        deal_order-run j k m r (s + 1) n (ground (arith, e)) (omega arith) (omega (arith, same)) in
      let end : s + suc k ≡ s + 1 + k = omega arith in
      rw end (ground (arith, deal_order-turn j r s n low, next, later))
]

-- A run that stops at the last seat goes on at the first.
deal_order-round :
    (j m r s n : ℕ)
    → s < n
    → r ≡ n - s + m
    → turns j (deal_order r s n)
      ≡ (if leb s j && ltb j n then 1 else 0) + turns j (deal_order m 0 n)
deal_order-round j m r s n low same =
    let run = deal_order-run j (n - s) m r s n low (omega arith) same in
    let end : s + (n - s) ≡ n = omega arith in
    let around : wrapped n n ≡ 0 = ground arith in
    subst
      (λ w.
        turns j (deal_order r s n)
        ≡ (if leb s j && ltb j n then 1 else 0) + turns j (deal_order m w n))
      around
      (subst
        (λ w.
          turns j (deal_order r s n)
          ≡ (if leb s j && ltb j w then 1 else 0) + turns j (deal_order m (wrapped w n) n))
        end run)

-- In two rounds every seat has two turns, wherever the deal begins.
pub turns-deal_order : (j s n : ℕ) → s < n → j < n → turns j (deal_order (2 * n) s n) ≡ 2
unfolding deal_order
turns-deal_order j s n low seated =
    let to_end = deal_order-round j (n + s) (2 * n) s n low (omega arith) in
    let round = deal_order-round j s (n + s) 0 n (omega arith) (omega arith) in
    let rest = deal_order-run j s 0 s 0 n (omega arith) (omega arith) (omega arith) in
    ground (arith, to_end, round, rest)
