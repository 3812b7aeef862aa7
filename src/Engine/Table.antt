-- ===== src/Engine/Table.antt =====
-- packages/poker-engine/src/state.ts: the state of a table. Amounts, seats and versions are natural
-- numbers: `assertInvariants` (Invariants.antt) demands that of the source's `number`.
use porker_monorepo.Base.{Bool, List, Option, String, false, find, map, sum_by, true, ℕ, ◌+◌, ◌===◌}
use porker_monorepo.Engine.Cards.{Card}

pub data BettingPhase : Type 0 where
  preflop flop turn river complete : BettingPhase

pub data PlayerStatus : Type 0 where
  active folded all_in : PlayerStatus

pub record TablePlayer : Type 0 where
  pub id : String
  pub seat : ℕ
  pub stack : ℕ
  pub street_committed : ℕ
  pub hand_committed : ℕ
  pub status : PlayerStatus

pub record TableState : Type 0 where
  pub table_id : String
  pub hand_id : String
  pub phase : BettingPhase
  pub version : ℕ
  pub button_seat : ℕ
  pub actor_id : String
  pub current_bet : ℕ
  pub minimum_raise : ℕ
  pub small_blind : ℕ
  pub big_blind : ℕ
  pub players : List TablePlayer
  -- Players who have acted since the last full raise.
  pub acted_player_ids : List String
  -- Active players whose right to make a raise is currently open.
  pub raise_rights : List String
  -- Wager level each player faced when they most recently acted this street.
  pub last_acted_bet : List (String × ℕ)
  pub deck : List Card
  pub board : List Card
  pub hole_cards : List (String × List Card)

-- `phase === "complete"`, `status === "active"` and the like.
abbrev pub is_complete : BettingPhase → Bool
is_complete complete = true
is_complete _ = false

abbrev pub is_active : TablePlayer → Bool
is_active p = elim p.status [ active ↦ true | folded ↦ false | all_in ↦ false ]

abbrev pub is_folded : TablePlayer → Bool
is_folded p = elim p.status [ active ↦ false | folded ↦ true | all_in ↦ false ]

abbrev pub is_all_in : TablePlayer → Bool
is_all_in p = elim p.status [ active ↦ false | folded ↦ false | all_in ↦ true ]

abbrev pub player_ids : List TablePlayer → List String
player_ids ps = map (λ p. p.id) ps

abbrev pub street_commitments : List TablePlayer → List ℕ
street_commitments ps = map (λ p. p.street_committed) ps

-- `ps.find((p) => p.id === id)`.
abbrev pub player_of : String → List TablePlayer → Option TablePlayer
player_of id ps = find (λ p. p.id === id) ps

-- The chips that a player holds and has put in: what no operation may create or lose.
abbrev pub chips : TablePlayer → ℕ
chips p = p.stack + p.hand_committed

abbrev pub total_chips : List TablePlayer → ℕ
total_chips ps = sum_by chips ps
