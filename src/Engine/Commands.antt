-- ===== src/Engine/Commands.antt =====
-- packages/poker-engine/src/commands.ts: what players ask for, and what happened.
use porker_monorepo.Base.{Bool, Number, Option, String, ℕ}
use porker_monorepo.Engine.Table.{BettingPhase}

pub data Action : Type 0 where
  fold check call : Action
  bet raise : Number → Action

-- `expectedVersion` may be absent.
pub record TableCommand : Type 0 where
  pub player_id : String
  pub expected_version : Option ℕ
  pub action : Action

pub data GameEvent : Type 0 where
  player_folded player_checked : String → GameEvent
  player_called player_bet : String → ℕ → GameEvent
  player_raised : String → ℕ → Bool → GameEvent
  street_completed : BettingPhase → GameEvent

pub data LegalAction : Type 0 where
  may_fold may_check : LegalAction
  may_call : ℕ → LegalAction
  may_bet may_raise : ℕ → ℕ → LegalAction
