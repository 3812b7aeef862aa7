-- ===== src/Engine/Showdown/Settle.antt =====
-- pots.ts: what a settlement leaves on the table.
use native.Mathlib.Nat.{zero-add}
use porker_monorepo.Base.{
  >>=-eq-ok, All, Bool-cases, List, String, Unique, [], ap, arith, guard, includes, inl, inr, keys,
  length, ltb, map, not, ok, refl, subst, sum_by, ℕ, ◌+◌, ◌===◌, ◌∙◌, ◌∷◌, ◌≡◌,
}
use porker_monorepo.Engine.Cards.{Card}
use porker_monorepo.Engine.Error.{hand_not_complete}
use porker_monorepo.Engine.Invariants.{participated}
use porker_monorepo.Engine.Pots.{Pot, add_amount, build_pots}
use porker_monorepo.Engine.Pots.Eligible.{
  FairPot, Known-eligible, Known-selection, Known-weaken, build_pots-FairBuild, participants,
}
use porker_monorepo.Engine.Pots.Payouts.{
  Booked, Known, add_amount-Booked, received, received-dict_total,
}
use porker_monorepo.Engine.Pots.Total.{build_pots-total, dict_total, dict_total-add}
use porker_monorepo.Engine.Progress.{contenders}
use porker_monorepo.Engine.Showdown.{
  decide, paid_out, pay_pots, pot_total, run_out_board, run_out_state, settle_showdown, settled,
  share_pot, showdown_state, winners_of,
}
use porker_monorepo.Engine.Showdown.Chips.{share_pot-Booked, share_pot-total, winners_of-winners}
use porker_monorepo.Engine.Table.{
  TablePlayer, TableState, is_complete, is_folded, player_ids, total_chips,
}

pay_pots-books :
    (state : TableState) (pots : List Pot) (m : List (String × ℕ)) {m' : List (String × ℕ)}
    → pay_pots state pots m ≡ ok m'
    → All (FairPot state.players) pots
    → Booked (participants state.players) m
    → Booked (participants state.players) m'
      × (dict_total m' ≡ dict_total m + sum_by (λ p. p.amount) pots)
unfolding pay_pots
pay_pots-books state [] m {m'} h f b =
    let same : m' ≡ m = ground (arith, h) in rw same (b, omega arith)
pay_pots-books state (pot ∷ pots) m {m'} h f b =
    let (ws, won, rest) = >>=-eq-ok (winners_of state pot.eligible) _ h in
    let known : Known (participants state.players) pot.eligible =
      rw (f.0.eligible_paid) (Known-eligible f.0.level state.players f.0.level_positive) in
    let (some_winner, known_ws) =
      winners_of-winners (includes (player_ids (participants state.players))) state pot.eligible won
        known in
    let shared = share_pot state.players state.button_seat pot.amount ws m in
    let (booked, total) = pay_pots-books state pots shared {m' = m'} rest f.1 (
      share_pot-Booked (participants state.players) state.players state.button_seat pot.amount ws m
        known_ws b) in
    (
      booked,
      omega (
        arith,
        total,
        share_pot-total state.players state.button_seat pot.amount ws m some_winner,
      ),
    )

decide_pots :
    (state : TableState) {m : List (String × ℕ)}
    → pay_pots state (build_pots state.players).pots (build_pots state.players).refunds ≡ ok m
    → Booked (participants state.players) m × (dict_total m ≡ pot_total state.players)
decide_pots state h =
    let fair = build_pots-FairBuild state.players in
    let (booked, total) = pay_pots-books state _ _ h fair.pots_fair fair.refunds_booked in
    (booked, omega (arith, total, build_pots-total state.players))

-- Whoever decides the pots, the payouts are booked under the players' ids and are worth all pots.
decide-books :
    (state : TableState) (cs : List TablePlayer) {m : List (String × ℕ)}
    → decide state cs ≡ ok m
    → Known (participants state.players) (player_ids cs)
    → Booked (participants state.players) m × (dict_total m ≡ pot_total state.players)
decide-books state (p ∷ []) {m} h k =
    let same : m ≡ add_amount p.id (pot_total state.players) [] = ground (arith, h) in
    rw same (
      add_amount-Booked (participants state.players) p.id (pot_total state.players) []
          (ground arith) (record { known = refl; once = λ a. omega arith }),
      dict_total-add p.id (pot_total state.players) [] ∙ zero-add (pot_total state.players),
    )
decide-books state [] {m} h k = decide_pots state {m = m} h
decide-books state (p ∷ q ∷ ps) {m} h k = decide_pots state {m = m} h

pub Booked-weaken :
    (ps : List TablePlayer) (m : List (String × ℕ)) → Booked (participants ps) m → Booked ps m
Booked-weaken ps m b = record {
  known = Known-weaken participated ps (keys m) b.known;
  once = b.once;
}

-- The settlement touches neither the players nor the seats before it pays.
showdown_state-keeps :
    (state : TableState) {shown : TableState}
    → showdown_state state ≡ ok shown
    → (board : List Card) × (deck : List Card) × (shown
        ≡ record state { board = board; deck = deck })
unfolding showdown_state run_out_state
showdown_state-keeps state {shown} h =
    elim (Bool-cases (ltb 1 (length (contenders state.players)))) [
      | inl e ↦
          let h' : run_out_state state ≡ ok shown = ground (arith, e) in
          let (dealt, _, same) = >>=-eq-ok (run_out_board state.board state.deck) _ h' in
          (dealt.0, dealt.1, ground (arith, same))
      | inr e ↦ (state.board, state.deck, ground (arith, e))
    ]

paid_out-total :
    (m : List (String × ℕ)) (ps : List TablePlayer)
    → total_chips (map (paid_out m) ps) ≡ sum_by (λ p. p.stack) ps + received m ps
paid_out-total m [] = omega arith
paid_out-total m (p ∷ ps) = omega (arith, paid_out-total m ps)

total_chips-split :
    (ps : List TablePlayer) → total_chips ps ≡ sum_by (λ p. p.stack) ps + pot_total ps
total_chips-split [] = omega arith
total_chips-split (p ∷ ps) = omega (arith, total_chips-split ps)

-- Taking a settlement apart: the payouts, and the state that they make.
pub settle_showdown-parts :
    (state : TableState) {t : TableState}
    → settle_showdown state ≡ ok t
    → (board : List Card) × (deck : List Card) × (m : List (String × ℕ)) × (showdown_state state
        ≡ ok (record state { board = board; deck = deck }))
      × (t ≡ settled (record state { board = board; deck = deck }) m)
      × Booked (participants state.players) m
      × (dict_total m ≡ pot_total state.players)
unfolding settle_showdown
settle_showdown-parts state {t} h =
    let (_, _, h1) = >>=-eq-ok (guard (is_complete state.phase) hand_not_complete) _ h in
    let (shown, sh, h2) = >>=-eq-ok (showdown_state state) _ h1 in
    let (m, dec, same) = >>=-eq-ok (decide shown (contenders state.players)) _ h2 in
    let (board, deck, e) = showdown_state-keeps state sh in
    let dec' : decide (record state { board = board; deck = deck }) (contenders state.players)
        ≡ ok m =
      subst (λ w. decide w (contenders state.players) ≡ ok m) e dec in
    let (booked, total) =
      decide-books (record state { board = board; deck = deck }) (contenders state.players) {m = m}
        dec'
        (Known-selection (λ p. not (is_folded p)) participated state.players
          (λ p k. ground arith)) in
    (board, deck, m, sh ∙ ap ok e, ground (arith, same, e), booked, total)

-- If the ids are unique and `settleShowdown` returns, the sum of all stacks and hand commitments is
-- what it was.
pub settle_showdown-total_chips :
    (state : TableState) {t : TableState}
    → Unique ◌===◌ (player_ids state.players)
    → settle_showdown state ≡ ok t
    → total_chips t.players ≡ total_chips state.players
unfolding settled
settle_showdown-total_chips state u h =
    let (board, deck, m, _, same, booked, total) = settle_showdown-parts state h in
    rw same (
      omega (
        arith,
        paid_out-total m state.players,
        received-dict_total state.players m u (Booked-weaken state.players m booked),
        total,
        total_chips-split state.players,
      ))
