-- ===== src/Engine/Witnesses.antt =====
-- The theorems at concrete tables, and tests of the definitions.
use porker_monorepo.Base.{
  All, Unique, [], arith, drop, false, nat, ok, refl, some, true, ◌+◌, ◌===◌, ◌↔◌, ◌∷◌, ◌≡◌, ◌≢◌,
  ◌≤◌, ◌⊎◌,
}
use porker_monorepo.Engine.Advance.{advance_hand}
use porker_monorepo.Engine.Cards.{check_cards, hearts, parse_card, validate_deck}
use porker_monorepo.Engine.Cards.Deck.{Distinct, IsConsistent, validate_deck-eq, validate_deck_iff}
use porker_monorepo.Engine.Cards.Parse.{parse_card-code}
use porker_monorepo.Engine.Commands.{call, player_called, raise}
use porker_monorepo.Engine.Evaluator.{
  HandScore, compare_hands, evaluate_five, evaluate_seven, pair, score, straight,
}
use porker_monorepo.Engine.Evaluator.Best.{BestOf, evaluate_seven-best, evaluate_seven-total}
use porker_monorepo.Engine.Evaluator.Order.{NoBetter}
use porker_monorepo.Engine.Hand.{opened_hand, start_hand}
use porker_monorepo.Engine.Hand.Opened.{start_hand-assert_invariants}
use porker_monorepo.Engine.Hand.Seats.{stacks_total}
use porker_monorepo.Engine.Hand.Start.{Startable, start_hand_iff}
use porker_monorepo.Engine.Invariants.{assert_invariants, has_two_cards}
use porker_monorepo.Engine.Invariants.Check.{assert_invariants_iff}
use porker_monorepo.Engine.Invariants.Facts.{Inv, Stocked}
use porker_monorepo.Engine.Legal.{legal_actions}
use porker_monorepo.Engine.Legal.Offered.{
  FreeFold, accepted-is_offered, is_offered, is_offered-accepted,
}
use porker_monorepo.Engine.Lifecycle.{add_on, next_funded_player, resolve_timeout}
use porker_monorepo.Engine.Lifecycle.AddOn.{add_on-undealt}
use porker_monorepo.Engine.Lifecycle.Timeout.{resolve_timeout-resolves}
use porker_monorepo.Engine.Pots.{build_pots}
use porker_monorepo.Engine.Pots.Layers.{Layered, build_pots-Layered}
use porker_monorepo.Engine.Pots.Total.{build_pots-total, pots_total}
use porker_monorepo.Engine.Progress.{Transition, finish_or_pass_action}
use porker_monorepo.Engine.Reducer.{act, act_if_seated, after_plain, apply_command_result}
use porker_monorepo.Engine.Reducer.Chips.{apply_command_result-total_chips}
use porker_monorepo.Engine.Reducer.Invariant.{apply_command_result-assert_invariants}
use porker_monorepo.Engine.Rounds.{InHand-Sound, Sound, commanded, started}
use porker_monorepo.Engine.Samples.{
  ann, bob, card, command, cyd, first_state, full_deck, king_flush, next_options, next_state,
  settled_table, seven_cards, shown_players, shown_state, three_options, three_players,
  topped_table, undealt_table, undealt_topped,
}
use porker_monorepo.Engine.Showdown.{best_ids, pot_total, run_out_board, score_of, settle_showdown}
use porker_monorepo.Engine.Showdown.Invariant.{settle_showdown-assert_invariants}
use porker_monorepo.Engine.Showdown.Settle.{settle_showdown-total_chips}
use porker_monorepo.Engine.Showdown.Winners.{Judged, Tied, best_ids-wins}
use porker_monorepo.Engine.Table.{TableState, player_ids, total_chips}

start_hand_runs : start_hand three_options ≡ ok first_state
unfolding start_hand check_cards validate_deck parse_card ◌===◌
start_hand_runs = refl

first_state-Inv : assert_invariants first_state ≡ ok tt
unfolding assert_invariants validate_deck parse_card ◌===◌
first_state-Inv = refl

abbrev after_call : TableState
after_call = record first_state {
  version = 1;
  actor_id = "bob";
  players = record ann { stack = 90; street_committed = 10; hand_committed = 10 } ∷ bob ∷ cyd ∷ [];
  acted_player_ids = "ann" ∷ [];
  raise_rights = "bob" ∷ "cyd" ∷ [];
  last_acted_bet = ("ann", 10) ∷ [];
}

abbrev called : Transition
called = record { state = after_call; events = player_called "ann" 10 ∷ [] }

call_runs : apply_command_result first_state (command "ann" call) ≡ ok called
unfolding apply_command_result act_if_seated act after_plain finish_or_pass_action ◌===◌
call_runs = refl

shown_state-Inv : assert_invariants shown_state ≡ ok tt
unfolding assert_invariants validate_deck parse_card ◌===◌
shown_state-Inv = refl

shown_settles : settle_showdown shown_state ≡ ok settled_table
unfolding settle_showdown best_ids evaluate_seven evaluate_five compare_hands ◌===◌ validate_deck
    parse_card
shown_settles = refl

settled_table-Inv : assert_invariants settled_table ≡ ok tt
unfolding assert_invariants validate_deck parse_card ◌===◌
settled_table-Inv = refl

bob_tops_up : add_on settled_table "bob" (nat 50) ≡ ok topped_table
unfolding add_on ◌===◌
bob_tops_up = refl

undealt_tops_up : add_on undealt_table "bob" (nat 50) ≡ ok undealt_topped
unfolding add_on ◌===◌
undealt_tops_up = refl

flop_runs : run_out_board [] (drop 6 full_deck) ≡ ok (settled_table.board, settled_table.deck)
unfolding run_out_board
flop_runs = refl

shown_ids : Unique ◌===◌ (player_ids shown_state.players)
shown_ids = ((assert_invariants_iff shown_state).0 shown_state-Inv).core.ids_unique

ten_of_hearts : parse_card (b' ' ∷ b't' ∷ b'H' ∷ []) ≡ ok (card 10 hearts)
unfolding parse_card
ten_of_hearts = refl

deck_parses : validate_deck full_deck ≡ ok full_deck
unfolding validate_deck parse_card
deck_parses = refl

bob_has_cards : has_two_cards settled_table.hole_cards "bob" ≡ true
unfolding ◌===◌
bob_has_cards = refl

bob_has_no_cards : has_two_cards undealt_table.hole_cards "bob" ≡ false
unfolding ◌===◌
bob_has_no_cards = refl

apply_command_result-assert_invariants_example :
    (assert_invariants after_call ≡ ok tt) × Stocked after_call
apply_command_result-assert_invariants_example =
    apply_command_result-assert_invariants first_state (command "ann" call) {t = called} call_runs
      first_state-Inv (omega arith)

apply_command_result-total_chips_example :
    total_chips after_call.players ≡ total_chips first_state.players
apply_command_result-total_chips_example =
    apply_command_result-total_chips first_state (command "ann" call) {t = called} call_runs

build_pots-total_example : pots_total (build_pots shown_players) ≡ pot_total shown_players
build_pots-total_example = build_pots-total shown_players

build_pots-Layered_example :
    Layered shown_players (build_pots shown_players).refunds 0 (build_pots shown_players).pots
build_pots-Layered_example = build_pots-Layered shown_players

resolve_timeout-resolves_example :
    (t : Transition) × (resolve_timeout first_state ≡ ok t)
    × (assert_invariants t.state ≡ ok tt)
    × (total_chips t.state.players ≡ total_chips first_state.players)
    × (t.state.version ≡ first_state.version + 1)
resolve_timeout-resolves_example =
    resolve_timeout-resolves first_state first_state-Inv (omega arith) refl

settle_showdown-total_chips_example :
    total_chips settled_table.players ≡ total_chips shown_state.players
settle_showdown-total_chips_example =
    settle_showdown-total_chips shown_state {t = settled_table} shown_ids shown_settles

raise_is_offered : is_offered first_state "ann" (raise (nat 25)) ≡ true
unfolding legal_actions ◌===◌
raise_is_offered = refl

is_offered-accepted_example :
    (t : Transition) × (apply_command_result first_state (command "ann" (raise (nat 25))) ≡ ok t)
is_offered-accepted_example =
    is_offered-accepted first_state (command "ann" (raise (nat 25))) (omega arith) refl
      raise_is_offered

accepted-is_offered_example :
    (is_offered first_state "ann" call ≡ true) ⊎ FreeFold first_state "ann" call
accepted-is_offered_example =
    accepted-is_offered first_state (command "ann" call) {t = called} call_runs

assert_invariants_iff_example : (assert_invariants first_state ≡ ok tt) ↔ Inv first_state
assert_invariants_iff_example = assert_invariants_iff first_state

validate_deck_iff_example :
    (validate_deck full_deck ≡ ok full_deck)
    ↔ ((full_deck ≡ full_deck) × All IsConsistent full_deck × Distinct full_deck)
validate_deck_iff_example = validate_deck_iff full_deck full_deck

parse_card-code_example :
    (parse_card (card 10 hearts).code ≡ ok (card 10 hearts)) × (2 ≤ 10) × (10 ≤ 14)
parse_card-code_example =
    parse_card-code (b' ' ∷ b't' ∷ b'H' ∷ []) {c = card 10 hearts} ten_of_hearts

add_on-undealt_example : assert_invariants undealt_topped ≢ ok tt
add_on-undealt_example =
    add_on-undealt undealt_table "bob" (nat 50) {t = undealt_topped} undealt_tops_up refl
      bob_has_no_cards

settle_showdown-assert_invariants_example :
    (assert_invariants settled_table ≡ ok tt) × (pot_total settled_table.players ≡ 0)
settle_showdown-assert_invariants_example =
    settle_showdown-assert_invariants shown_state {t = settled_table} shown_settles shown_state-Inv

start_hand-assert_invariants_example :
    (assert_invariants first_state ≡ ok tt)
    × Stocked first_state
    × (total_chips first_state.players ≡ stacks_total three_players)
start_hand-assert_invariants_example =
    start_hand-assert_invariants three_options {t = first_state} start_hand_runs

start_hand_iff_example :
    (start_hand three_options ≡ ok first_state)
    ↔ (Startable three_options × (first_state ≡ opened_hand three_options full_deck))
start_hand_iff_example = start_hand_iff three_options first_state

InHand-Sound_example : Sound three_options after_call
InHand-Sound_example = InHand-Sound three_options after_call (
    commanded first_state (command "ann" call) called (started first_state start_hand_runs)
      call_runs)

seven_cards-valid : validate_deck seven_cards ≡ ok seven_cards
unfolding validate_deck parse_card
seven_cards-valid = refl

seven_score : evaluate_seven seven_cards ≡ ok king_flush
unfolding evaluate_seven evaluate_five compare_hands validate_deck parse_card
seven_score = refl

evaluate_seven-best_example : BestOf 5 seven_cards king_flush
evaluate_seven-best_example = evaluate_seven-best seven_cards {s = king_flush} seven_score

evaluate_seven-total_example : (s : HandScore) × (evaluate_seven seven_cards ≡ ok s)
evaluate_seven-total_example =
    evaluate_seven-total seven_cards refl (validate_deck-eq seven_cards seven_cards-valid).1
      (validate_deck-eq seven_cards seven_cards-valid).2

pair_loses : NoBetter (compare_hands (score pair (14 ∷ 9 ∷ 5 ∷ 3 ∷ [])) (score straight (6 ∷ [])))
unfolding compare_hands
pair_loses = refl

straight_loses : NoBetter (compare_hands (score straight (6 ∷ [])) king_flush)
unfolding compare_hands
straight_loses = refl

table_advances : advance_hand topped_table (some next_options) ≡ ok next_state
unfolding advance_hand validate_deck parse_card next_funded_player ◌===◌
table_advances = refl

ann_wins : best_ids settled_table ("ann" ∷ "bob" ∷ []) ≡ ok ("ann" ∷ [])
unfolding best_ids score_of evaluate_seven evaluate_five compare_hands validate_deck parse_card
    ◌===◌
ann_wins = refl

best_ids-wins_example :
    (top : HandScore) × All (Judged settled_table top ("ann" ∷ [])) ("ann" ∷ "bob" ∷ [])
    × All (Tied settled_table top) ("ann" ∷ [])
best_ids-wins_example = best_ids-wins settled_table "ann" ("bob" ∷ []) {ws = "ann" ∷ []} ann_wins
