-- ===== src/Engine/Progress.antt =====
-- packages/poker-engine/src/reducer.ts: what follows an action, up to `finishOrPassAction`.
pub mod NextStreet
pub mod Invariant
pub mod Street
pub mod Turn
use porker_monorepo.Base.{
  Bool, List, Option, String, [], all, drop, false, filter, get_elem?, if◌then◌else◌, includes,
  is_empty, leb, length, ltb, map, none, not, some, suc, take, true, zero, ℕ, ◌%◌, ◌&&◌, ◌++◌, ◌+◌,
  ◌==◌, ◌||◌, ◌∷◌,
}
use porker_monorepo.Engine.Cards.{Card}
use porker_monorepo.Engine.Commands.{GameEvent, street_completed}
use porker_monorepo.Engine.Hand.{id_of}
use porker_monorepo.Engine.Table.{
  BettingPhase, TablePlayer, TableState, complete, flop, is_active, is_complete, is_folded,
  player_ids, preflop, river, turn,
}

pub record Transition : Type 0 where
  pub state : TableState
  pub events : List GameEvent

unfoldable pub next_phase : BettingPhase → BettingPhase
next_phase preflop = flop
next_phase flop = turn
next_phase turn = river
next_phase river = complete
next_phase complete = complete

abbrev pub can_act : TablePlayer → Bool
can_act p = is_active p && ltb 0 p.stack

-- The loop of `nextActivePlayer`, with the number of rounds left.
unfoldable pub next_active_from : ℕ → ℕ → List TablePlayer → ℕ → Option TablePlayer
next_active_from zero offset players seat = none
next_active_from (suc rounds) offset players seat =
    let rest = next_active_from rounds (suc offset) players seat in
    elim (get_elem? players ((seat + offset) % length players)) [
      | none ↦ rest
      | some candidate ↦ if can_act candidate then some candidate else rest
    ]

unfoldable pub next_active_player : List TablePlayer → ℕ → Option TablePlayer
unfolding next_active_from
next_active_player players seat = next_active_from (length players) 1 players seat

unfoldable pub add_unique : List String → String → List String
add_unique values value = if includes values value then values else values ++ value ∷ []

abbrev pub is_flop : BettingPhase → Bool
is_flop flop = true
is_flop _ = false

-- The board and the deck: a card is burned before each street.
unfoldable pub deal_street : BettingPhase → List Card → List Card → List Card × List Card
deal_street phase board deck =
    let dealt = if is_flop phase then take 3 (drop 1 deck) else take 1 (drop 1 deck) in
    if is_empty deck || is_complete phase
    then (board, deck)
    else (board ++ dealt, drop (if is_flop phase then 4 else 2) deck)

unfoldable pub deal_board : TableState → BettingPhase → List Card × List Card
unfolding deal_street
deal_board state phase = deal_street phase state.board state.deck

abbrev pub contenders : List TablePlayer → List TablePlayer
contenders players = filter (λ p. not (is_folded p)) players

abbrev pub actives : List TablePlayer → List TablePlayer
actives players = filter is_active players

abbrev pub has_matched : ℕ → TablePlayer → Bool
has_matched current_bet p = p.street_committed == current_bet

abbrev pub clear_street : TablePlayer → TablePlayer
clear_street p = record p { street_committed = 0 }

unfoldable pub reset_street : List TablePlayer → List TablePlayer
reset_street players = map clear_street players

-- The hand is over: one contender is left, or nobody can bet any more.
unfoldable pub is_hand_closed : List TablePlayer → ℕ → Bool
is_hand_closed players current_bet =
    leb (length (contenders players)) 1
    || (leb (length (actives players)) 1 && all (has_matched current_bet) (actives players))

unfoldable pub is_street_closed : List TablePlayer → List String → ℕ → Bool
is_street_closed players acted current_bet =
    ltb 1 (length (actives players))
    && all (λ p. includes acted p.id && has_matched current_bet p) (actives players)

-- What a command leaves behind for `finishOrPassAction`, apart from the state.
pub record Acted : Type 0 where
  pub players : List TablePlayer
  pub acted_player_ids : List String
  pub raise_rights : List String
  pub last_acted_bet : List (String × ℕ)

unfoldable pub finish_hand : TableState → Acted → TableState
finish_hand state a = record state {
  version = state.version + 1;
  phase = complete;
  players = a.players;
  acted_player_ids = a.acted_player_ids;
  raise_rights = [];
  last_acted_bet = a.last_acted_bet;
}

unfoldable pub next_street : TableState → Acted → TableState
unfolding next_phase deal_board reset_street next_active_player
next_street state a =
    let phase = next_phase state.phase in
    let players = reset_street a.players in
    record state {
      version = state.version + 1;
      phase = phase;
      actor_id = id_of (next_active_player players state.button_seat) state.actor_id;
      current_bet = 0;
      minimum_raise = state.big_blind;
      players = players;
      acted_player_ids = [];
      raise_rights = player_ids (actives players);
      last_acted_bet = [];
      board = (deal_board state phase).0;
      deck = (deal_board state phase).1;
    }

unfoldable pub pass_action : TableState → Acted → ℕ → TableState
unfolding next_active_player
pass_action state a acting_seat = record state {
  version = state.version + 1;
  actor_id = id_of (next_active_player a.players acting_seat) state.actor_id;
  players = a.players;
  acted_player_ids = a.acted_player_ids;
  raise_rights = a.raise_rights;
  last_acted_bet = a.last_acted_bet;
}

unfoldable pub finish_or_pass_action : TableState → Acted → ℕ → List GameEvent → Transition
unfolding is_hand_closed is_street_closed finish_hand next_street pass_action
finish_or_pass_action state a acting_seat events =
    if is_hand_closed a.players state.current_bet
    then record { state = finish_hand state a; events = events }
    else if is_street_closed a.players a.acted_player_ids state.current_bet
    then record {
      state = next_street state a;
      events = events ++ street_completed (next_phase state.phase) ∷ [];
    }
    else record { state = pass_action state a acting_seat; events = events }
