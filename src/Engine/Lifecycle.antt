-- ===== src/Engine/Lifecycle.antt =====
-- packages/poker-engine/src/lifecycle.ts: time-outs and add-ons.
pub mod AddOn
pub mod Timeout
use porker_monorepo.Base.{
  Bool, List, Number, Option, Result, String, any, err, find, guard, if◌then◌else◌, ltb, map, none,
  not, ok, positive_integer, some, suc, value_of, zero, ℕ, ◌%◌, ◌&&◌, ◌+◌, ◌===◌, ◌==◌, ◌>>◌, ◌||◌,
}
use porker_monorepo.Engine.Commands.{TableCommand, check, fold}
use porker_monorepo.Engine.Error.{
  EngineError, add_on_during_hand, add_on_not_positive, unknown_player,
}
use porker_monorepo.Engine.Pots.{seat_span}
use porker_monorepo.Engine.Progress.{Transition}
use porker_monorepo.Engine.Reducer.{Rejection, apply_command}
use porker_monorepo.Engine.Table.{
  TablePlayer, TableState, active, is_all_in, is_complete, player_of,
}

-- The loop of `nextFundedPlayer`, with the number of rounds left.
unfoldable pub next_funded_from : ℕ → ℕ → List TablePlayer → ℕ → Option TablePlayer
next_funded_from zero offset players seat = none
next_funded_from (suc rounds) offset players seat =
    let rest = next_funded_from rounds (suc offset) players seat in
    elim (find (λ p. p.seat == (seat + offset) % seat_span players) players) [
      | none ↦ rest
      | some candidate ↦ if ltb 0 candidate.stack then some candidate else rest
    ]

unfoldable pub next_funded_player : List TablePlayer → ℕ → Option TablePlayer
unfolding next_funded_from
next_funded_player players seat = next_funded_from (seat_span players) 1 players seat

-- The command that stands in for an actor who let the time pass.
abbrev pub timeout_command : TableState → TablePlayer → TableCommand
timeout_command state player = record {
  player_id = player.id;
  expected_version = some state.version;
  action = if player.street_committed == state.current_bet then check else fold;
}

-- `resolveTimeout` throws two kinds of error.
pub data TimeoutError : Type 0 where
  no_actor : TimeoutError
  refused : Rejection → TimeoutError

abbrev pub or_refused {ℓ} : {A : Type ℓ} → Result Rejection A → Result TimeoutError A
or_refused (ok a) = ok a
or_refused (err r) = err (refused r)

unfoldable pub resolve_timeout : TableState → Result TimeoutError Transition
resolve_timeout state = elim (player_of state.actor_id state.players) [
  | none ↦ err no_actor
  | some player ↦ or_refused (apply_command state (timeout_command state player))
]

abbrev pub has_committed : TablePlayer → Bool
has_committed p = not (p.hand_committed == 0) || not (p.street_committed == 0)

abbrev pub add_chips : String → ℕ → TablePlayer → TablePlayer
add_chips id amount p =
    if p.id === id
    then record p { stack = p.stack + amount; status = if is_all_in p then active else p.status }
    else p

unfoldable pub add_on : TableState → String → Number → Result EngineError TableState
add_on state player_id amount = do
  guard (is_complete state.phase && not (any has_committed state.players)) add_on_during_hand
  guard (positive_integer amount) add_on_not_positive
  guard (any (λ p. p.id === player_id) state.players) unknown_player
  ok (record state {
    version = state.version + 1;
    players = map (add_chips player_id (value_of amount)) state.players;
  })
