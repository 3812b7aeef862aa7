-- ===== src/Gateway/Actions.antt =====
-- apps/poker-api/src/game/game.gateway.ts: the handler of `table:action`.
pub mod Kept
pub mod Once
use porker_monorepo.Base.{
  Bool, List, Option, Result, String, [], any, err, false, if◌then◌else◌, insert, leb, none, not,
  ok, some, ℕ, ◌++◌, ◌===◌, ◌==◌, ◌>>=◌, ◌>>◌, ◌∷◌,
}
use porker_monorepo.Engine.Commands.{Action}
use porker_monorepo.Engine.Progress.{Transition}
use porker_monorepo.Engine.Reducer.{
  CommandErrorCode, Rejection, apply_command_result, illegal_action, invalid_amount, not_actor,
  stale_version,
}
use porker_monorepo.Engine.Table.{TableState}
use porker_monorepo.Gateway.{
  Effect, Finalized, GatewayState, Reply, Stored, TableRuntime, Thrown, automatic_action,
  cashed_out, failure, from_store, or_engine, schedule_timeout, settle_if_complete, success,
}
use porker_monorepo.Gateway.Recovery.{recover_result, recovered}
use porker_monorepo.Gateway.Turns.{
  Surroundings, Turn, announced, commit_input, commits, deadline_of, find_room, is_replay,
  runtime_of,
}
use porker_monorepo.Store.{Database, StoreError, database_error, thrown}
use porker_monorepo.Store.Game.{
  DisconnectGrace, DurableActionAck, GameTables, PublicRoomRecord, TableOperation,
}
use porker_monorepo.Store.Game.Hands.{find_table_operation}
use porker_monorepo.Store.Game.Seats.{list_table_seats}
use porker_monorepo.Store.Game.Sessions.{find_disconnect_grace}

-- A `table:action` message that passed its schema.
pub record ActionRequest : Type 0 where
  pub room_id : String
  pub hand_id : String
  pub action_id : String
  pub expected_version : ℕ
  pub action : Action

abbrev pub code_text : CommandErrorCode → String
code_text not_actor = "NOT_ACTOR"
code_text stale_version = "STALE_VERSION"
code_text illegal_action = "ILLEGAL_ACTION"
code_text invalid_amount = "INVALID_AMOUNT"

abbrev pub is_due : Option DisconnectGrace → ℕ → Bool
is_due none now = false
is_due (some g) now = leb g.deadline_at now

abbrev pub is_conflict : StoreError → Bool
is_conflict (thrown message) = message === "ACTION_ID_CONFLICT"
is_conflict (database_error code) = false

module _ {L : Type 0} {T : Type 0 → Type 0} (d : Database L T)
    (decrypt : String → Option TableState) (encrypt : TableState → String)
    (hash_action : ActionRequest → String) where
  abbrev pub Handled : Type 0
  Handled = Result Thrown (GatewayState L T × Reply × List Effect)

  abbrev pub fails : String → Option ℕ → GatewayState L T → Handled
  fails code version s = ok (s, failure code version, [])

  -- What follows the commit: the new runtime, and what is sent and scheduled.
  abbrev pub after_action :
      Surroundings
      → Turn
      → PublicRoomRecord
      → Finalized
      → Option ℕ
      → GatewayState L T
      → Result StoreError (GameTables L T Stored × DurableActionAck Stored)
      → Handled
  after_action w taken room f deadline s (err e) =
      if is_conflict e then fails "ACTION_ID_CONFLICT" none s else err (from_store e)
  after_action w taken room f deadline s (ok (store, ack)) =
      if ack.committed
      then ok (
        record s {
          store = store;
          runtimes = insert taken.room_id (runtime_of f deadline) s.runtimes;
        },
        success ack.ack,
        announced taken room f
            ++ schedule_timeout taken.room_id deadline
            ++ (if is_due (find_disconnect_grace d taken.room_id f.state.actor_id store) w.later
                then automatic_action taken.room_id f.state.actor_id ∷ []
                else []),
      )
      else ok (record s { store = store }, success ack.ack, [])

  abbrev pub turn_of : String → ActionRequest → Turn
  turn_of user q = record {
    room_id = q.room_id;
    hand_id = q.hand_id;
    action_id = q.action_id;
    actor_user_id = user;
    payload_hash = hash_action q;
    expected_version = q.expected_version;
    automatic = false;
  }

  abbrev pub act_on :
      Surroundings
      → PublicRoomRecord
      → String
      → ActionRequest
      → GatewayState L T
      → Result Rejection Transition
      → Handled
  act_on w room user q s (err rejection) =
      fails (code_text rejection.code) (some rejection.version) s
  act_on w room user q s (ok t) = do
    f ← or_engine (settle_if_complete t.state t.events)
    let deadline = deadline_of f.state w.now room.action_timeout_seconds
    after_action w (turn_of user q) room f deadline s
        (commits d w (commit_input encrypt (turn_of user q) deadline f) s)

  abbrev pub act_recovered :
      Surroundings
      → PublicRoomRecord
      → String
      → ActionRequest
      → GatewayState L T
      → Option TableRuntime
      → Handled
  act_recovered w room user q s none = fails "HAND_NOT_FOUND" none s
  act_recovered w room user q s (some runtime) =
      if not (runtime.state.hand_id === q.hand_id)
      then fails "HAND_NOT_FOUND" none s
      else if not (q.expected_version == runtime.state.version)
      then fails "STALE_VERSION" (some runtime.state.version) s
      else act_on w room user q s (
          apply_command_result runtime.state (record {
            player_id = user;
            expected_version = some q.expected_version;
            action = q.action;
          }))

  abbrev pub act_in_room :
      Surroundings → String → ActionRequest → GatewayState L T → Option PublicRoomRecord → Handled
  act_in_room w user q s none = fails "ROOM_NOT_FOUND" none s
  act_in_room w user q s (some room) =
      if room.status === "DRAINING"
      then fails "ROOM_DRAINING" none s
      else if not
          (any (λ seat. seat.user_id === user) (list_table_seats d cashed_out q.room_id s.store))
      then fails "NOT_SEAT_OWNER" none s
      else (do
        found ← recover_result d decrypt q.room_id s
        act_recovered w room user q (found.0) (recovered (found.1)))

  abbrev pub act_unless_done :
      Surroundings
      → String
      → ActionRequest
      → GatewayState L T
      → Option (TableOperation Stored)
      → Handled
  act_unless_done w user q s (some o) =
      if is_replay q.room_id q.hand_id user (hash_action q) o
      then ok (s, success o.ack, [])
      else fails "ACTION_ID_CONFLICT" none s
  act_unless_done w user q s none = act_in_room w user q s (find_room d q.room_id s)

  -- What the handler does under the lock of the room. Before it takes the lock it makes the first of
  -- these tests once more, which answers the same.
  unfoldable pub act_under_lock : Surroundings → String → ActionRequest → GatewayState L T → Handled
  unfolding recover_result settle_if_complete
  act_under_lock w user q s =
      act_unless_done w user q s (find_table_operation d q.action_id s.store)
