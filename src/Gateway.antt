-- ===== src/Gateway.antt =====
-- apps/poker-api/src/game: the runtime of a table, game.gateway.ts and table-runtime.ts.
pub mod Recovery
pub mod Turns
pub mod Actions
pub mod Timeouts
pub mod NextHand
pub mod Leave
pub mod Settlement
pub mod Views
pub mod Runs
pub mod Samples
mod Witnesses
mod RoomWitnesses
use porker_monorepo.Base.{
  Bool, List, Option, Result, String, [], any, err, filter, if◌then◌else◌, length, lookup, ltb, map,
  none, not, ok, some, sum_by, ℕ, ◌*◌, ◌++◌, ◌+◌, ◌-◌, ◌>>=◌, ◌>>◌, ◌||◌, ◌∷◌,
}
use porker_monorepo.Engine.Cards.{Card}
use porker_monorepo.Engine.Commands.{
  GameEvent, LegalAction, player_bet, player_called, player_checked, player_folded, player_raised,
  street_completed,
}
use porker_monorepo.Engine.Error.{EngineError}
use porker_monorepo.Engine.Invariants.{assert_invariants}
use porker_monorepo.Engine.Legal.{legal_actions}
use porker_monorepo.Engine.Showdown.{settle_showdown}
use porker_monorepo.Engine.Table.{TablePlayer, TableState, is_complete, player_of}
use porker_monorepo.Ledger.Integers.{ltb_ℤ, pos, ℤ}
use porker_monorepo.Store.{StoreError}
use porker_monorepo.Store.Game.{GameTables, PublicRoomRecord, SeatStack}
use porker_monorepo.Store.Game.Commits.{ActionEvent}

-- What happened in a hand, with the settlement that the gateway adds: the pot, the awards and the
-- stacks.
pub data RoundEvent : Type 0 where
  game : GameEvent → RoundEvent
  hand_settled : ℕ → List (String × ℕ) → List (String × ℕ) → RoundEvent

-- The acknowledgement of an action.
pub record ActionAck : Type 0 where
  pub action_id : String
  pub version : ℕ
  pub events : List RoundEvent
  pub automatic : Bool

-- The JSON values that the gateway stores; `other_json` stands for all others.
pub data Stored : Type 0 where
  envelope : String → Stored
  payload : RoundEvent → Stored
  acknowledged : ActionAck → Stored
  cashed_out : String → ℤ → Stored
  already_left : String → Stored
  other_json : Stored

abbrev pub event_type : RoundEvent → String
event_type (game (player_folded id)) = "player-folded"
event_type (game (player_checked id)) = "player-checked"
event_type (game (player_called id amount)) = "player-called"
event_type (game (player_bet id amount)) = "player-bet"
event_type (game (player_raised id amount full)) = "player-raised"
event_type (game (street_completed phase)) = "street-completed"
event_type (hand_settled pot awards chips_left) = "hand-settled"

pub record Finalized : Type 0 where
  pub state : TableState
  pub events : List RoundEvent

-- `stackBefore.get(id) ?? 0`.
abbrev pub stack_before : String → List TablePlayer → ℕ
stack_before id players = elim (player_of id players) [ none ↦ 0 | some p ↦ p.stack ]

abbrev pub award_of : List TablePlayer → TablePlayer → String × ℕ
award_of before p = (p.id, p.stack - stack_before p.id before)

unfoldable pub awards_of : List TablePlayer → List TablePlayer → List (String × ℕ)
awards_of before after = filter (λ e. ltb 0 (e.1)) (map (award_of before) after)

abbrev pub settlement_event : TableState → TableState → RoundEvent
settlement_event state paid_state =
    hand_settled (sum_by (λ p. p.hand_committed) state.players)
      (awards_of state.players paid_state.players) (map (λ p. (p.id, p.stack)) paid_state.players)

unfoldable pub settle_if_complete : TableState → List GameEvent → Result EngineError Finalized
settle_if_complete state events =
    if is_complete state.phase
    then (do
      paid_state ← settle_showdown state
      assert_invariants paid_state
      ok (record {
        state = paid_state;
        events = map game events ++ settlement_event state paid_state ∷ [];
      }))
    else ok (record { state = state; events = map game events })

-- What a player is sent: the table without the deck and the cards of the others, with his menu.
pub record PlayerView : Type 0 where
  pub table : TableState
  pub legal_actions_for : List LegalAction
  pub min_buy_in : ℤ
  pub settlement : Option Stored

abbrev pub own_cards : String → Option (List Card) → List (String × List Card)
own_cards id none = []
own_cards id (some cards) = (id, cards) ∷ []

unfoldable pub player_view : TableState → String → ℤ → Option Stored → PlayerView
player_view state user min_buy_in settlement = record {
  table = record state { deck = []; hole_cards = own_cards user (lookup user state.hole_cards) };
  legal_actions_for = legal_actions state user;
  min_buy_in = min_buy_in;
  settlement = settlement;
}

-- A table in memory; the timers are what the gateway asks for below.
pub record TableRuntime : Type 0 where
  pub state : TableState
  pub action_deadline_at : Option ℕ

pub record GatewayState (L : Type 0) (T : Type 0 → Type 0) : Type 0 where
  pub store : GameTables L T Stored
  pub runtimes : List (String × TableRuntime)

-- What the gateway sends to a room, and the timers that it sets and clears.
pub data Effect : Type 0 where
  table_event : String → String → ℕ → RoundEvent → Effect
  next_hand_cancelled : String → Effect
  next_hand_scheduled : String → String → Effect
  timeout_scheduled : String → ℕ → Effect
  automatic_action : String → String → Effect
  table_left : String → Stored → Effect
  table_snapshot : String → String → ℕ → Effect
  lobby_rooms : List PublicRoomRecord → Effect

pub data Reply : Type 0 where
  success : Stored → Reply
  failure : String → Option ℕ → Reply

-- What a handler throws.
pub data Thrown : Type 0 where
  from_store : StoreError → Thrown
  from_engine : EngineError → Thrown

abbrev pub or_store {ℓ} : {A : Type ℓ} → Result StoreError A → Result Thrown A
or_store (ok a) = ok a
or_store (err e) = err (from_store e)

abbrev pub or_engine {ℓ} : {A : Type ℓ} → Result EngineError A → Result Thrown A
or_engine (ok a) = ok a
or_engine (err e) = err (from_engine e)

unfoldable pub broadcast_events : String → String → ℕ → List RoundEvent → List Effect
broadcast_events room hand version events = map (λ e. table_event room hand version e) events

-- `players.length < 2 || players.some((player) => player.stack < minBuyIn)`.
abbrev pub cannot_go_on : TableState → ℤ → Bool
cannot_go_on state min_buy_in =
    ltb (length state.players) 2 || any (λ p. ltb_ℤ (pos p.stack) min_buy_in) state.players

unfoldable pub schedule_next_hand : String → String → TableState → ℤ → List Effect
schedule_next_hand room hand state min_buy_in =
    next_hand_cancelled room
    ∷ (if not (is_complete state.phase) || cannot_go_on state min_buy_in
        then []
        else next_hand_scheduled room hand ∷ [])

abbrev pub schedule_timeout : String → Option ℕ → List Effect
schedule_timeout room none = []
schedule_timeout room (some at) = timeout_scheduled room at ∷ []

-- `Date.now() + timeoutSeconds * 1_000`, with the scale of POKER_TIMEOUT_SCALE at one.
abbrev pub action_deadline : ℕ → ℕ → ℕ
action_deadline now seconds = now + seconds * 1000

abbrev pub seat_stacks : TableState → List SeatStack
seat_stacks state = map (λ p. record { user_id = p.id; stack = pos p.stack }) state.players

abbrev pub stored_event : RoundEvent → ActionEvent Stored
stored_event e = record { type = event_type e; payload = payload e }
