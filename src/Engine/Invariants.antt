-- ===== src/Engine/Invariants.antt =====
-- packages/poker-engine/src/invariants.ts: the executable check of a table state. Its tests that a
-- number of the state is a non-negative integer hold by the type of the model.
pub mod Facts
pub mod Check
use porker_monorepo.Base.{
  Bool, List, Option, Result, String, [], all, any, err, false, guard, includes, keys, leb, length,
  lookup, ltb, map, max_of, none, not, ok, some, to_set, ℕ, ◌&&◌, ◌++◌, ◌===◌, ◌==◌, ◌>>=◌, ◌>>◌,
  ◌||◌, ◌∷◌,
}
use porker_monorepo.Engine.Cards.{Card, validate_deck}
use porker_monorepo.Engine.Error.{
  EngineError, active_without_chips, actor_not_eligible, actor_unknown, all_in_with_chips,
  blinds_invalid, button_not_seated, current_bet_trails, invalid_board_count, invalid_hole_owner,
  minimum_raise_not_positive, not_2_to_9_players, not_two_hole_cards, participant_without_cards,
  player_ids_not_unique, seats_not_unique, street_exceeds_hand, unknown_metadata_owner,
}
use porker_monorepo.Engine.Table.{
  BettingPhase, TablePlayer, TableState, complete, flop, is_active, is_all_in, is_complete,
  is_folded, player_ids, player_of, preflop, river, street_commitments, turn,
}

abbrev pub or_throw {ℓ} : {A : Type ℓ} → Option A → EngineError → Result EngineError A
or_throw none e = err e
or_throw (some a) e = ok a

-- The body of the loop over the players.
abbrev pub check_player : TablePlayer → Result EngineError (Unit {0})
check_player p = do
  guard (leb p.street_committed p.hand_committed) street_exceeds_hand
  guard (not (is_active p && p.stack == 0)) active_without_chips
  guard (not (is_all_in p && not (p.stack == 0))) all_in_with_chips

unfoldable pub check_players : List TablePlayer → Result EngineError (Unit {0})
check_players [] = ok tt
check_players (p ∷ ps) = do check_player p; check_players ps

-- `validBoardCount`.
abbrev pub is_valid_board : BettingPhase → ℕ → Bool
is_valid_board preflop n = n == 0
is_valid_board flop n = n == 3
is_valid_board turn n = n == 4
is_valid_board river n = n == 5
is_valid_board complete n = n == 0 || n == 3 || n == 4 || n == 5

unfoldable pub check_holes : List String → List (String × List Card) → Result EngineError (Unit {0})
check_holes ids [] = ok tt
check_holes ids ((id, cards) ∷ rest) = do
  guard (includes ids id) invalid_hole_owner
  guard (length cards == 2) not_two_hole_cards
  check_holes ids rest

abbrev pub has_two_cards : List (String × List Card) → String → Bool
has_two_cards holes id = elim (lookup id holes) [ none ↦ false | some cards ↦ length cards == 2 ]

abbrev pub participated : TablePlayer → Bool
participated p = ltb 0 p.stack || ltb 0 p.hand_committed || not (is_folded p)

abbrev pub is_card_backed : TableState → Bool
is_card_backed s = ltb 0 (length s.deck) || ltb 0 (length s.board) || ltb 0 (length s.hole_cards)

-- `Object.values(holeCards).flat()`.
abbrev pub held_cards : List (String × List Card) → List Card
held_cards [] = []
held_cards ((id, cards) ∷ rest) = cards ++ held_cards rest

abbrev pub all_cards : TableState → List Card
all_cards s = s.deck ++ (s.board ++ held_cards s.hole_cards)

abbrev pub metadata_ids : TableState → List String
metadata_ids s = s.acted_player_ids ++ (s.raise_rights ++ keys s.last_acted_bet)

abbrev pub nat_eq : ℕ → ℕ → Bool
nat_eq a b = a == b

abbrev pub seats : List TablePlayer → List ℕ
seats ps = map (λ p. p.seat) ps

unfoldable pub assert_invariants : TableState → Result EngineError (Unit {0})
unfolding check_players check_holes
assert_invariants s = do
  guard (leb 2 (length s.players) && leb (length s.players) 9) not_2_to_9_players
  guard (length (to_set ◌===◌ (player_ids s.players)) == length s.players) player_ids_not_unique
  guard (length (to_set nat_eq (seats s.players)) == length s.players) seats_not_unique
  guard (any (λ p. p.seat == s.button_seat) s.players) button_not_seated
  guard (ltb 0 s.small_blind && ltb 0 s.big_blind && ltb s.small_blind s.big_blind) blinds_invalid
  guard (ltb 0 s.minimum_raise) minimum_raise_not_positive
  actor ← or_throw (player_of s.actor_id s.players) actor_unknown
  check_players s.players
  guard (is_complete s.phase || (is_active actor && not (actor.stack == 0))) actor_not_eligible
  guard (leb (max_of (street_commitments s.players)) s.current_bet) current_bet_trails
  guard (all (includes (player_ids s.players)) (metadata_ids s)) unknown_metadata_owner
  guard (is_valid_board s.phase (length s.board)) invalid_board_count
  check_holes (player_ids s.players) s.hole_cards
  guard
      (not (is_card_backed s)
        || all (λ p. not (participated p) || has_two_cards s.hole_cards p.id) s.players)
      participant_without_cards
  validate_deck (all_cards s)
  ok tt
