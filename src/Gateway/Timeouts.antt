-- ===== src/Gateway/Timeouts.antt =====
-- apps/poker-api/src/game/game.gateway.ts: the clock acts for a player.
pub mod Kept
use porker_monorepo.Base.{
  Bool, List, Option, Result, String, [], any, decimal, err, false, if◌then◌else◌, insert, none,
  not, ok, some, template, true, ℕ, ◌&&◌, ◌++◌, ◌===◌, ◌==◌, ◌>>=◌, ◌>>◌, ◌||◌, ◌∷◌,
}
use porker_monorepo.Engine.Commands.{
  Action, LegalAction, check, fold, may_bet, may_call, may_check, may_fold, may_raise,
}
use porker_monorepo.Engine.Legal.{legal_actions}
use porker_monorepo.Engine.Progress.{Transition}
use porker_monorepo.Engine.Reducer.{Rejection, apply_command_result}
use porker_monorepo.Engine.Table.{TableState, is_complete}
use porker_monorepo.Gateway.{
  Effect, Finalized, GatewayState, Stored, TableRuntime, Thrown, from_store, or_engine, or_store,
  schedule_timeout, settle_if_complete,
}
use porker_monorepo.Gateway.Recovery.{recover_result, recovered}
use porker_monorepo.Gateway.Turns.{
  Surroundings, Turn, announced, commit_input, commits, deadline_of, find_room, is_replay,
  runtime_of,
}
use porker_monorepo.Store.{Database, thrown}
use porker_monorepo.Store.Game.{DurableActionAck, GameTables, PublicRoomRecord, TableOperation}
use porker_monorepo.Store.Game.Hands.{find_table_operation}
use porker_monorepo.Store.Game.Sessions.{clear_disconnect_grace}

abbrev pub may_be_checked : LegalAction → Bool
may_be_checked may_fold = false
may_be_checked may_check = true
may_be_checked (may_call amount) = false
may_be_checked (may_bet low high) = false
may_be_checked (may_raise low high) = false

abbrev pub check_or_fold : TableState → Action
check_or_fold state =
    if any may_be_checked (legal_actions state state.actor_id) then check else fold

-- `expected && (...)`, and `requiredUserId && requiredUserId !== actorUserId`.
pub record ExpectedTurn : Type 0 where
  pub hand_id : String
  pub version : ℕ
  pub actor_id : String
  pub deadline : ℕ

abbrev pub is_at : Option ℕ → ℕ → Bool
is_at none at = false
is_at (some deadline) at = deadline == at

abbrev pub is_expected_turn : Option ExpectedTurn → TableRuntime → Bool
is_expected_turn none r = true
is_expected_turn (some e) r =
    r.state.hand_id === e.hand_id
    && r.state.version == e.version
    && r.state.actor_id === e.actor_id
    && is_at r.action_deadline_at e.deadline

abbrev pub is_required_user : Option String → String → Bool
is_required_user none actor = true
is_required_user (some user) actor = user === "" || user === actor

module _ {L : Type 0} {T : Type 0 → Type 0} (d : Database L T)
    (decrypt : String → Option TableState) (encrypt : TableState → String)
    (hash_turn : Action → String → String) where
  abbrev pub timeout_turn : String → TableState → Turn
  timeout_turn room state = record {
    room_id = room;
    hand_id = state.hand_id;
    action_id = template ("server:timeout:" ∷ state.hand_id ∷ ":" ∷ decimal state.version ∷ []);
    actor_user_id = state.actor_id;
    payload_hash = hash_turn (check_or_fold state) state.actor_id;
    expected_version = state.version;
    automatic = true;
  }

  abbrev pub Done : Type 0
  Done = Result Thrown (GatewayState L T × List Effect)

  abbrev pub time_out_committed :
      Turn
      → PublicRoomRecord
      → Finalized
      → Option ℕ
      → GatewayState L T
      → GameTables L T Stored × DurableActionAck Stored
      → GatewayState L T × List Effect
  time_out_committed taken room f deadline s (store, ack) = (
    record s {
      store = clear_disconnect_grace d taken.room_id taken.actor_user_id store;
      runtimes = insert taken.room_id (runtime_of f deadline) s.runtimes;
    },
    announced taken room f ++ schedule_timeout taken.room_id deadline,
  )

  abbrev pub time_out_in_room :
      Surroundings → Turn → Finalized → GatewayState L T → Option PublicRoomRecord → Done
  time_out_in_room w taken f s none = ok (s, [])
  time_out_in_room w taken f s (some room) =
      let deadline = deadline_of f.state w.now room.action_timeout_seconds in
      if room.status === "DRAINING" then ok (s, []) else (do
        committed ← or_store (commits d w (commit_input encrypt taken deadline f) s)
        ok (time_out_committed taken room f deadline s committed))

  abbrev pub time_out_on :
      Surroundings → Turn → GatewayState L T → Result Rejection Transition → Done
  time_out_on w taken s (err rejection) = ok (s, [])
  time_out_on w taken s (ok t) = do
    f ← or_engine (settle_if_complete t.state t.events)
    time_out_in_room w taken f s (find_room d taken.room_id s)

  abbrev pub time_out_unless_done :
      Surroundings → Turn → TableState → GatewayState L T → Option (TableOperation Stored) → Done
  time_out_unless_done w taken state s (some o) =
      if is_replay taken.room_id taken.hand_id taken.actor_user_id taken.payload_hash o
      then ok (s, [])
      else err (from_store (thrown "ACTION_ID_CONFLICT"))
  time_out_unless_done w taken state s none = time_out_on w taken s (
      apply_command_result state (record {
        player_id = state.actor_id;
        expected_version = some state.version;
        action = check_or_fold state;
      }))

  abbrev pub time_out_recovered :
      Surroundings
      → String
      → Option String
      → Option ExpectedTurn
      → GatewayState L T
      → Option TableRuntime
      → Done
  time_out_recovered w room required expected s none = ok (s, [])
  time_out_recovered w room required expected s (some r) =
      let taken = timeout_turn room r.state in
      if is_complete r.state.phase
        || not (is_expected_turn expected r)
        || not (is_required_user required r.state.actor_id)
      then ok (s, [])
      else time_out_unless_done w taken r.state s (find_table_operation d taken.action_id s.store)

  -- The clock acts for the player whose turn it is: he checks where he may, and folds otherwise.
  unfoldable pub perform_automatic_action :
      Surroundings → String → Option String → Option ExpectedTurn → GatewayState L T → Done
  unfolding recover_result settle_if_complete
  perform_automatic_action w room required expected s = do
    found ← recover_result d decrypt room s
    time_out_recovered w room required expected (found.0) (recovered (found.1))
