-- ===== src/Engine/Legal.antt =====
-- packages/poker-engine/src/reducer.ts: the actions that `legalActions` offers.
pub mod Offered
use porker_monorepo.Base.{
  List, String, [], if◌then◌else◌, includes, ltb, min, none, not, some, ◌&&◌, ◌++◌, ◌+◌, ◌===◌,
  ◌==◌, ◌||◌, ◌∷◌,
}
use porker_monorepo.Engine.Commands.{LegalAction, may_bet, may_call, may_check, may_fold, may_raise}
use porker_monorepo.Engine.Reducer.{to_call}
use porker_monorepo.Engine.Table.{TablePlayer, TableState, is_active, is_complete, player_of}

abbrev pub answer_actions : TableState → TablePlayer → List LegalAction
answer_actions state player =
    if ltb 0 (to_call state player)
    then may_fold ∷ may_call (min (to_call state player) player.stack) ∷ []
    else may_check ∷ []

abbrev pub wager_actions : TableState → TablePlayer → List LegalAction
wager_actions state player =
    let maximum = player.street_committed + player.stack in
    if state.current_bet == 0 && ltb 0 maximum
    then may_bet (min state.minimum_raise maximum) maximum ∷ []
    else if includes state.raise_rights player.id && ltb state.current_bet maximum
    then may_raise (min (state.current_bet + state.minimum_raise) maximum) maximum ∷ []
    else []

unfoldable pub legal_actions : TableState → String → List LegalAction
legal_actions state player_id =
    if not (player_id === state.actor_id) || is_complete state.phase
    then []
    else elim (player_of player_id state.players) [
      | none ↦ []
      | some player ↦
          if is_active player then answer_actions state player ++ wager_actions state player else []
    ]
