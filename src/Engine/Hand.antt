-- ===== src/Engine/Hand.antt =====
-- packages/poker-engine/src/state.ts: the start of a hand.
pub mod Order
pub mod Holes
pub mod Consistent
pub mod Seating
pub mod Seats
pub mod Actor
pub mod Start
pub mod Opened
use porker_monorepo.Base.{
  Bool, List, Number, Option, Result, String, [], all, drop, false, filter, find, get_elem?, guard,
  if◌then◌else◌, insert, is_some, leb, length, lookup, ltb, map, map_indexed, max_of, min,
  natural_integer, none, not, ok, positive_integer, some, suc, to_set, true, value_of, zero, ℕ, ◌%◌,
  ◌&&◌, ◌*◌, ◌++◌, ◌+◌, ◌-◌, ◌===◌, ◌==◌, ◌>>=◌, ◌>>◌, ◌||◌, ◌∷◌,
}
use porker_monorepo.Engine.Cards.{Card, validate_deck}
use porker_monorepo.Engine.Error.{
  EngineError, button_outside_table, deck_not_52_cards, player_ids_not_unique,
  seat_count_out_of_range, stacks_or_blinds_not_positive,
}
use porker_monorepo.Engine.Invariants.{seats}
use porker_monorepo.Engine.Table.{
  TablePlayer, TableState, active, all_in, complete, is_active, player_ids, preflop,
  street_commitments,
}

pub record HandPlayerInput : Type 0 where
  pub id : String
  pub stack : Number

pub record StartHandOptions : Type 0 where
  pub table_id : String
  pub hand_id : String
  pub players : List HandPlayerInput
  pub button_seat : Number
  pub blinds : Number × Number
  pub deck : List Card

pub record HeadsUpHandOptions : Type 0 where
  pub stacks : Number × Number
  pub blinds : Number × Number

unfoldable pub validate_blinds_and_stacks :
    List Number → Number × Number → Result EngineError (Unit {0})
validate_blinds_and_stacks stacks (small, big) =
    guard
      (positive_integer small
        && natural_integer big
        && ltb (value_of small) (value_of big)
        && all positive_integer stacks)
      stacks_or_blinds_not_positive

abbrev pub seat_after : ℕ → ℕ → ℕ
seat_after seat player_count = (seat + 1) % player_count

-- The two rounds of the deal: `count` seats in turn, from `seat` on.
unfoldable pub deal_order : ℕ → ℕ → ℕ → List ℕ
deal_order zero seat player_count = []
deal_order (suc count) seat player_count =
    seat ∷ deal_order count (seat_after seat player_count) player_count

-- `holes[id].push(card)`, the cards under the id being `cards`.
abbrev pub push_onto :
    Option (List Card) → String → Card → List (String × List Card) → List (String × List Card)
push_onto none id card holes = holes
push_onto (some cards) id card holes = insert id (cards ++ card ∷ []) holes

abbrev pub push_card : String → Card → List (String × List Card) → List (String × List Card)
push_card id card holes = push_onto (lookup id holes) id card holes

-- A step of the deal: a card for the player of the seat.
abbrev pub hand_to :
    Option HandPlayerInput → Card → List (String × List Card) → List (String × List Card)
hand_to none card holes = holes
hand_to (some input) card holes = push_card input.id card holes

-- The `forEach` over the deal order: the seats and the cards go side by side.
unfoldable pub deal_cards :
    List HandPlayerInput
    → List ℕ
    → List Card
    → List (String × List Card)
    → List (String × List Card)
deal_cards inputs [] cards holes = holes
deal_cards inputs (seat ∷ seats) [] holes = holes
deal_cards inputs (seat ∷ seats) (card ∷ cards) holes =
    deal_cards inputs seats cards (hand_to (get_elem? inputs seat) card holes)

unfoldable pub forced_bet : ℕ → ℕ → ℕ → ℕ → ℕ → ℕ
forced_bet small_seat big_seat small big seat =
    if seat == small_seat then small else if seat == big_seat then big else 0

-- A player who has put in `min(stack, forced)`.
unfoldable pub post : String → ℕ → ℕ → ℕ → TablePlayer
post id seat stack forced = record {
  id = id;
  seat = seat;
  stack = stack - min stack forced;
  street_committed = min stack forced;
  hand_committed = min stack forced;
  status = if stack == min stack forced then all_in else active;
}

unfoldable pub seat_players : (ℕ → ℕ) → List HandPlayerInput → List TablePlayer
unfolding post
seat_players forced inputs =
    map_indexed (λ seat input. post input.id seat (value_of input.stack) (forced seat)) 0 inputs

abbrev pub is_active? : Option TablePlayer → Bool
is_active? none = false
is_active? (some p) = is_active p

abbrev pub seat_or : Option TablePlayer → ℕ → ℕ
seat_or none first = first
seat_or (some p) first = p.seat

-- The loop that looks for the first actor, with the number of rounds left.
unfoldable pub first_actor : ℕ → List TablePlayer → ℕ → ℕ → Option TablePlayer → Option TablePlayer
first_actor zero players count first actor = actor
first_actor (suc rounds) players count first actor =
    let rest =
      first_actor rounds players count first
        (get_elem? players (seat_after (seat_or actor first) count)) in
    if is_active? actor then actor else rest

unfoldable pub is_betting_complete : List TablePlayer → Option TablePlayer → ℕ → Bool
is_betting_complete active_players none current_bet = true
is_betting_complete active_players (some actor) current_bet =
    length active_players == 0
    || (length active_players == 1 && actor.street_committed == current_bet)

abbrev pub id_of : Option TablePlayer → String → String
id_of none id = id
id_of (some p) id = p.id

-- `players[0].id`; the callers have two players at least.
abbrev pub first_id : List TablePlayer → String
first_id [] = ""
first_id (p ∷ ps) = p.id

unfoldable pub holes_of : List HandPlayerInput → ℕ → List Card → List (String × List Card)
unfolding deal_order deal_cards
holes_of inputs button deck =
    let count = length inputs in
    deal_cards inputs (deal_order (2 * count) (seat_after button count) count) deck
      (map (λ input. (input.id, [])) inputs)

-- The state that `startHand` returns once its checks have passed.
unfoldable pub opened_hand : StartHandOptions → List Card → TableState
unfolding forced_bet seat_players first_actor is_betting_complete holes_of
opened_hand options validated_deck =
    let count = length options.players in
    let button = value_of options.button_seat in
    let small_blind = value_of (options.blinds.0) in
    let big_blind = value_of (options.blinds.1) in
    let small_seat = if count == 2 then button else seat_after button count in
    let big_seat = seat_after small_seat count in
    let players =
      seat_players (forced_bet small_seat big_seat small_blind big_blind) options.players in
    let current_bet = max_of (street_commitments players) in
    let active_players = filter is_active players in
    let first_seat = if count == 2 then button else seat_after big_seat count in
    let actor = first_actor count players count first_seat (get_elem? players first_seat) in
    record {
      table_id = options.table_id;
      hand_id = options.hand_id;
      phase = if is_betting_complete active_players actor current_bet then complete else preflop;
      version = 0;
      button_seat = button;
      actor_id = id_of actor (first_id players);
      current_bet = current_bet;
      minimum_raise = big_blind;
      small_blind = small_blind;
      big_blind = big_blind;
      players = players;
      acted_player_ids = [];
      raise_rights = player_ids active_players;
      last_acted_bet = [];
      deck = drop (count * 2) validated_deck;
      board = [];
      hole_cards = holes_of options.players button validated_deck;
    }

unfoldable pub start_hand : StartHandOptions → Result EngineError TableState
unfolding validate_blinds_and_stacks opened_hand
start_hand options = do
  let count = length options.players
  guard (leb 2 count && leb count 9) seat_count_out_of_range
  guard (natural_integer options.button_seat && ltb (value_of options.button_seat) count)
      button_outside_table
  guard (length (to_set ◌===◌ (map (λ input. input.id) options.players)) == count)
      player_ids_not_unique
  validate_blinds_and_stacks (map (λ input. input.stack) options.players) options.blinds
  guard (length options.deck == 52) deck_not_52_cards
  validated_deck ← validate_deck options.deck
  ok (opened_hand options validated_deck)

-- `stack - commitment` stops at 0, as `Math.max(0, …)` does.
unfoldable pub heads_up_player : String → ℕ → ℕ → ℕ → TablePlayer
heads_up_player id seat stack commitment = record {
  id = id;
  seat = seat;
  stack = stack - commitment;
  street_committed = min stack commitment;
  hand_committed = min stack commitment;
  status = if leb stack commitment then all_in else active;
}

unfoldable pub heads_up_state : ℕ × ℕ → ℕ × ℕ → TableState
unfolding heads_up_player
heads_up_state (stack1, stack2) (small_blind, big_blind) =
    let players =
      heads_up_player "player-1" 0 stack1 small_blind
      ∷ heads_up_player "player-2" 1 stack2 big_blind
      ∷ [] in
    let current_bet = max_of (street_commitments players) in
    let active_players = filter is_active players in
    let actor = find (λ p. ltb p.street_committed current_bet) active_players in
    record {
      table_id = "heads-up-test-table";
      hand_id = "heads-up-test-hand";
      phase = if length active_players == 0 || not (is_some actor) then complete else preflop;
      version = 0;
      button_seat = 0;
      actor_id = id_of actor (id_of (get_elem? active_players 0) (first_id players));
      current_bet = current_bet;
      minimum_raise = big_blind;
      small_blind = small_blind;
      big_blind = big_blind;
      players = players;
      acted_player_ids = [];
      raise_rights = player_ids active_players;
      last_acted_bet = [];
      deck = [];
      board = [];
      hole_cards = [];
    }

unfoldable pub heads_up_hand : HeadsUpHandOptions → Result EngineError TableState
unfolding validate_blinds_and_stacks heads_up_state
heads_up_hand options = do
  validate_blinds_and_stacks (options.stacks.0 ∷ options.stacks.1 ∷ []) options.blinds
  ok (
      heads_up_state (value_of (options.stacks.0), value_of (options.stacks.1))
        (value_of (options.blinds.0), value_of (options.blinds.1)))
