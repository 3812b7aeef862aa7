-- ===== src/Gateway/Leave.antt =====
-- apps/poker-api/src/game/game.gateway.ts: the handler of `table:leave`.
pub mod LastHand
use porker_monorepo.Base.{
  Bool, List, Option, Result, String, [], err, filter, if◌then◌else◌, none, not, ok, some, ℕ, ◌&&◌,
  ◌===◌, ◌>>=◌, ◌>>◌, ◌∷◌,
}
use porker_monorepo.Engine.Table.{TableState, is_complete}
use porker_monorepo.Gateway.{
  Effect, GatewayState, Reply, Stored, TableRuntime, Thrown, already_left, cashed_out, failure,
  lobby_rooms, success, table_left,
}
use porker_monorepo.Gateway.Recovery.{recover_result, recovered}
use porker_monorepo.Gateway.Turns.{Surroundings, find_room}
use porker_monorepo.Store.{Database, FailureCode, StoreError, database_error, thrown}
use porker_monorepo.Store.Game.{GameTables, PublicRoomRecord, TableOperation}
use porker_monorepo.Store.Game.Hands.{find_table_operation}
use porker_monorepo.Store.Game.Releases.{release_table_seat}
use porker_monorepo.Store.Game.Seats.{list_public_rooms}

-- A `table:leave` message that passed its schema.
pub record LeaveRequest : Type 0 where
  pub room_id : String
  pub action_id : String

abbrev pub is_leave_replay : String → String → String → TableOperation Stored → Bool
is_leave_replay room user hash o =
    o.room_id === room && o.user_id === user && o.type === "LEAVE" && o.payload_hash === hash

abbrev pub in_progress : Option TableRuntime → Option ℕ
in_progress none = none
in_progress (some r) = if is_complete r.state.phase then none else some r.state.version

-- `error.message`, with the client's own messages as a parameter.
abbrev pub message_of : (FailureCode → String) → StoreError → String
message_of client_message (thrown message) = message
message_of client_message (database_error code) = client_message code

module _ {L : Type 0} {T : Type 0 → Type 0} (d : Database L T)
    (decrypt : String → Option TableState) (hash_leave : LeaveRequest → String)
    (client_message : FailureCode → String) where
  abbrev pub Left : Type 0
  Left = Result Thrown (GatewayState L T × Reply × List Effect)

  abbrev pub after_release :
      LeaveRequest
      → GatewayState L T
      → Result StoreError (GameTables L T Stored × Stored × Bool)
      → GatewayState L T × Reply × List Effect
  after_release q s (ok (store, ack, committed)) = (
    record s { store = store },
    success ack,
    if committed
        then table_left q.room_id ack ∷ lobby_rooms (list_public_rooms d cashed_out store) ∷ []
        else [],
  )
  after_release q s (err e) =
      if message_of client_message e === "NOT_SEAT_OWNER"
      then (s, success (already_left q.action_id), [])
      else (s, failure (message_of client_message e) none, [])

  abbrev pub leave_unless_playing :
      Surroundings
      → String
      → LeaveRequest
      → GatewayState L T
      → Option ℕ
      → GatewayState L T × Reply × List Effect
  leave_unless_playing w user q s (some version) =
      (s, failure "HAND_IN_PROGRESS" (some version), [])
  leave_unless_playing w user q s none = after_release q s (
      release_table_seat d cashed_out w.fails_at (λ attempt. s.store)
        (record {
          room_id = q.room_id;
          user_id = user;
          action_id = q.action_id;
          payload_hash = hash_leave q;
        }))

  -- `runtimes.clear(roomId)`.
  abbrev pub forget : String → GatewayState L T → GatewayState L T
  forget room s = record s { runtimes = filter (λ e. not (e.0 === room)) s.runtimes }

  abbrev pub leave_room :
      Surroundings → String → LeaveRequest → GatewayState L T → Option PublicRoomRecord → Left
  leave_room w user q s none = ok (s, failure "ROOM_NOT_FOUND" none, [])
  leave_room w user q s (some room) = do
    found ← recover_result d decrypt q.room_id (forget q.room_id s)
    ok (leave_unless_playing w user q (found.0) (in_progress (recovered (found.1))))

  abbrev pub leave_unless_done :
      Surroundings
      → String
      → LeaveRequest
      → GatewayState L T
      → Option (TableOperation Stored)
      → Left
  leave_unless_done w user q s (some o) =
      if is_leave_replay q.room_id user (hash_leave q) o
      then ok (s, success o.ack, [])
      else ok (s, failure "ACTION_ID_CONFLICT" none, [])
  leave_unless_done w user q s none = leave_room w user q s (find_room d q.room_id s)

  -- What the handler does under the lock of the room. Before it, it cancels the timer of the next hand
  -- and makes the first of these tests as well.
  unfoldable pub leave_under_lock : Surroundings → String → LeaveRequest → GatewayState L T → Left
  unfolding recover_result
  leave_under_lock w user q s =
      leave_unless_done w user q s (find_table_operation d q.action_id s.store)
