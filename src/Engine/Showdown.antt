-- ===== src/Engine/Showdown.antt =====
-- packages/poker-engine/src/pots.ts: who wins each pot, and the settlement of a hand.
pub mod Settle
pub mod Invariant
pub mod RunOut
pub mod Winners
pub mod Chips
use Prim.Native.Nat.{Ordering}
use porker_monorepo.Base.{
  List, Option, Result, String, [], drop, err, guard, if◌then◌else◌, is_empty, leb, length, lookup,
  ltb, map, none, not, ok, some, suc, sum_by, take, zero, ℕ, ◌%◌, ◌&&◌, ◌++◌, ◌+◌, ◌/◌, ◌==◌, ◌>>=◌,
  ◌>>◌, ◌||◌, ◌∷◌,
}
use porker_monorepo.Engine.Cards.{Card}
use porker_monorepo.Engine.Error.{
  EngineError, board_cannot_run_out, cannot_evaluate_showdown, deck_exhausted, hand_not_complete,
  pot_without_eligible_player,
}
use porker_monorepo.Engine.Evaluator.{HandScore, compare_hands, evaluate_seven}
use porker_monorepo.Engine.Invariants.{has_two_cards, is_valid_board, or_throw}
use porker_monorepo.Engine.Pots.{
  Pot, add_amount, amount_of, build_pots, clockwise_from_left_of_button,
}
use porker_monorepo.Engine.Progress.{contenders}
use porker_monorepo.Engine.Table.{TablePlayer, TableState, active, complete, is_all_in, is_complete}

-- The body of the loop of `bestIds`: the best score so far, and who holds it.
pub record Leaders : Type 0 where
  pub best : Option HandScore
  pub winners : List String

abbrev pub compare_best : HandScore → Option HandScore → Ordering
compare_best s none = Ordering.gt
compare_best s (some best) = compare_hands s best

abbrev pub update_leaders : Ordering → String → HandScore → Leaders → Leaders
update_leaders Ordering.gt id s l = record { best = some s; winners = id ∷ [] }
update_leaders Ordering.eq id s l = record l { winners = l.winners ++ id ∷ [] }
update_leaders Ordering.lt id s l = l

unfoldable pub consider : String → HandScore → Leaders → Leaders
consider id s l = update_leaders (compare_best s l.best) id s l

unfoldable pub score_of : TableState → String → Result EngineError HandScore
score_of state id = do
  guard (has_two_cards state.hole_cards id && length state.board == 5) cannot_evaluate_showdown
  hole ← or_throw (lookup id state.hole_cards) cannot_evaluate_showdown
  evaluate_seven (hole ++ state.board)

unfoldable pub best_ids_from : TableState → List String → Leaders → Result EngineError (List String)
unfolding score_of consider
best_ids_from state [] l = ok l.winners
best_ids_from state (id ∷ ids) l = do
  s ← score_of state id
  best_ids_from state ids (consider id s l)

unfoldable pub best_ids : TableState → List String → Result EngineError (List String)
unfolding best_ids_from
best_ids state eligible = best_ids_from state eligible (record { best = none; winners = [] })

-- The `while` loop of `runOutBoard`, with the number of rounds left.
unfoldable pub run_out : ℕ → List Card → List Card → Result EngineError (List Card × List Card)
run_out zero board deck = ok (board, deck)
run_out (suc rounds) board [] = if ltb (length board) 5 then err deck_exhausted else ok (board, [])
run_out (suc rounds) board (c ∷ []) =
    if ltb (length board) 5 then err deck_exhausted else ok (board, c ∷ [])
run_out (suc rounds) board (burned ∷ dealt ∷ deck) =
    let rest = run_out rounds (board ++ dealt ∷ []) deck in
    if ltb (length board) 5 then rest else ok (board, burned ∷ dealt ∷ deck)

-- Five rounds are enough: each adds a card to the board.
unfoldable pub run_out_board : List Card → List Card → Result EngineError (List Card × List Card)
unfolding run_out
run_out_board board deck = do
  guard (is_valid_board complete (length board)) board_cannot_run_out
  guard (not (is_empty board) || leb 4 (length deck)) deck_exhausted
  if is_empty board
      then run_out 5 (board ++ take 3 (drop 1 deck)) (drop 4 deck)
      else run_out 5 board deck

abbrev pub pay_each : ℕ → List String → List (String × ℕ) → List (String × ℕ)
pay_each share [] payouts = payouts
pay_each share (id ∷ ids) payouts = pay_each share ids (add_amount id share payouts)

-- The winners share a pot; the odd chips go round from the left of the button.
unfoldable pub share_pot :
    List TablePlayer → ℕ → ℕ → List String → List (String × ℕ) → List (String × ℕ)
unfolding clockwise_from_left_of_button
share_pot players button amount winners payouts =
    pay_each 1
      (take (amount % length winners) (clockwise_from_left_of_button players button winners))
      (pay_each (amount / length winners) winners payouts)

unfoldable pub winners_of : TableState → List String → Result EngineError (List String)
winners_of state [] = err pot_without_eligible_player
winners_of state (id ∷ []) = ok (id ∷ [])
winners_of state (id ∷ id' ∷ ids) = best_ids state (id ∷ id' ∷ ids)

unfoldable pub pay_pots :
    TableState → List Pot → List (String × ℕ) → Result EngineError (List (String × ℕ))
unfolding winners_of share_pot
pay_pots state [] payouts = ok payouts
pay_pots state (pot ∷ pots) payouts = do
  winners ← winners_of state pot.eligible
  pay_pots state pots (share_pot state.players state.button_seat pot.amount winners payouts)

abbrev pub pot_total : List TablePlayer → ℕ
pot_total players = sum_by (λ p. p.hand_committed) players

abbrev pub paid_out : List (String × ℕ) → TablePlayer → TablePlayer
paid_out payouts p =
    let stack = p.stack + amount_of p.id payouts in
    record p {
      stack = stack;
      street_committed = 0;
      hand_committed = 0;
      status = if is_all_in p && ltb 0 stack then active else p.status;
    }

unfoldable pub settled : TableState → List (String × ℕ) → TableState
settled state payouts = record state {
  version = state.version + 1;
  current_bet = 0;
  acted_player_ids = [];
  raise_rights = [];
  last_acted_bet = [];
  players = map (paid_out payouts) state.players;
}

unfoldable pub run_out_state : TableState → Result EngineError TableState
unfolding run_out_board
run_out_state state = do
  dealt ← run_out_board state.board state.deck
  ok (record state { board = dealt.0; deck = dealt.1 })

-- The state in which the pots are decided: with several contenders the board is run out.
unfoldable pub showdown_state : TableState → Result EngineError TableState
unfolding run_out_state
showdown_state state =
    if ltb 1 (length (contenders state.players)) then run_out_state state else ok state

abbrev pub decide : TableState → List TablePlayer → Result EngineError (List (String × ℕ))
decide state (p ∷ []) = ok (add_amount p.id (pot_total state.players) [])
decide state others =
    pay_pots state (build_pots state.players).pots (build_pots state.players).refunds

unfoldable pub settle_showdown : TableState → Result EngineError TableState
unfolding showdown_state settled pay_pots build_pots
settle_showdown state = do
  guard (is_complete state.phase) hand_not_complete
  shown ← showdown_state state
  payouts ← decide shown (contenders state.players)
  ok (settled shown payouts)
