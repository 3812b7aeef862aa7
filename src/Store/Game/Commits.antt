-- ===== src/Store/Game/Commits.antt =====
-- packages/db/src/game-server.ts: committed actions.
use porker_monorepo.Base.{
  Bool, List, Option, Result, String, [], err, false, if◌then◌else◌, is_some, map, none, not, ok,
  some, suc, to_set, true, zero, ℕ, ◌&&◌, ◌+◌, ◌===◌, ◌==◌, ◌>>=◌, ◌>>◌, ◌∷◌,
}
use porker_monorepo.Store.{
  Caught, Database, FailureCode, StoreError, answer, attempts, database_error, other_code, p2002,
  p2034, require, rethrow_unless, thrown,
}
use porker_monorepo.Store.Game.{
  DurableActionAck, GameSnapshot, GameTables, Hand, HandEvent, SeatStack, TableOperation, exhausted,
  is_text, last_by, or_not_found,
}
use porker_monorepo.Store.Game.Hands.{
  find_table_operation, is_snapshot_of, snapshot_row, store_stacks, value_or_zero_of,
}
use porker_monorepo.Store.Game.Seats.{is_operation, text_or_empty}

pub record ActionEvent (J : Type 0) : Type 0 where
  pub type : String
  pub payload : J

pub record CommitActionInput (J : Type 0) : Type 0 where
  pub room_id : String
  pub hand_id : String
  pub action_id : String
  pub actor_user_id : String
  pub payload_hash : String
  pub expected_version : ℕ
  pub events : List (ActionEvent J)
  pub state : J
  pub ack : J
  pub seat_stacks : List SeatStack
  pub new_version : ℕ
  pub action_deadline_at : Option ℕ

-- The operation that an action commits under its id.
abbrev pub is_same_action : {J : Type 0} → CommitActionInput J → TableOperation J → Bool
is_same_action input o =
    o.type === "ACTION"
    && is_text o.hand_id input.hand_id
    && o.user_id === input.actor_user_id
    && o.room_id === input.room_id
    && o.payload_hash === input.payload_hash

abbrev pub action_ack : {J : Type 0} → CommitActionInput J → J → Bool → DurableActionAck J
action_ack input ack committed = record {
  room_id = input.room_id;
  hand_id = input.hand_id;
  action_id = input.action_id;
  actor_user_id = input.actor_user_id;
  payload_hash = input.payload_hash;
  ack = ack;
  committed = committed;
}

-- `index === 0 ? value : null`.
abbrev pub if_first {ℓ} : {A : Type ℓ} → ℕ → A → Option A
if_first zero a = some a
if_first (suc n) a = none

abbrev pub event_row : {J : Type 0} → CommitActionInput J → ℕ → ℕ → ActionEvent J → HandEvent J
event_row input index sequence event = record {
  hand_id = input.hand_id;
  sequence = sequence;
  version = input.new_version;
  type = event.type;
  payload = event.payload;
  action_id = if_first index input.action_id;
  actor_user_id = if_first index input.actor_user_id;
  action_room_id = if_first index input.room_id;
  action_payload_hash = if_first index input.payload_hash;
  ack = if_first index input.ack;
}

abbrev pub operation_row : {J : Type 0} → CommitActionInput J → TableOperation J
operation_row input = record {
  action_id = input.action_id;
  room_id = input.room_id;
  user_id = input.actor_user_id;
  type = "ACTION";
  hand_id = some input.hand_id;
  payload_hash = input.payload_hash;
  ack = input.ack;
}

-- A hand without a deadline is complete.
abbrev pub with_deadline : Option ℕ → ℕ → Hand → Hand
with_deadline none now hand = record hand {
  action_deadline_at = none;
  status = "COMPLETE";
  completed_at = some now;
}
with_deadline (some at) now hand = record hand { action_deadline_at = some at }

module _ {L : Type 0} {T : Type 0 → Type 0} {J : Type 0} (d : Database L T) where
  -- The loop that numbers the events and writes them.
  unfoldable pub store_events :
      CommitActionInput J → ℕ → ℕ → List (ActionEvent J) → T (HandEvent J) → T (HandEvent J)
  store_events input index sequence [] rows = rows
  store_events input index sequence (event ∷ events) rows =
      store_events input (index + 1) (sequence + 1) events
        (d.tables.create (event_row input index (sequence + 1) event) rows)

  abbrev pub last_sequence : String → T (HandEvent J) → ℕ
  last_sequence hand rows =
      value_or_zero_of (λ (e : HandEvent J). e.sequence)
        (last_by (λ (e : HandEvent J). e.sequence)
          (d.tables.find_many (λ e. e.hand_id === hand) rows))

  -- `!snapshot || Number(snapshot.version) !== input.expectedVersion` does not hold.
  abbrev pub is_expected : ℕ → Option (GameSnapshot J) → Bool
  is_expected version none = false
  is_expected version (some r) = r.version == version

  abbrev pub latest_version : String → String → T (GameSnapshot J) → Option (GameSnapshot J)
  latest_version room hand rows =
      last_by (λ (r : GameSnapshot J). r.version)
        (d.tables.find_many (is_snapshot_of room hand) rows)

  unfoldable pub commit_unless_done :
      Option (TableOperation J)
      → CommitActionInput J
      → ℕ
      → GameTables L T J
      → Result StoreError (GameTables L T J × DurableActionAck J)
  unfolding store_events store_stacks
  commit_unless_done (some existing) input now s = do
    require (is_same_action input existing) "ACTION_ID_CONFLICT"
    ok (s, action_ack input existing.ack false)
  commit_unless_done none input now s = do
    require
        (is_expected input.expected_version
          (latest_version input.room_id input.hand_id s.snapshots))
        "STALE_VERSION"
    stored ← store_stacks d input.room_id input.seat_stacks s.seats
    _ ← or_not_found (d.tables.find_first (λ h. h.id === input.hand_id) s.hands)
    ok (
      record s {
        operations = d.tables.create (operation_row input) s.operations;
        events = store_events input 0 (last_sequence input.hand_id s.events) input.events s.events;
        snapshots =
            d.tables.create (snapshot_row input.room_id input.hand_id input.new_version input.state)
              s.snapshots;
        seats = stored;
        hands =
            d.tables.update (λ h. h.id === input.hand_id)
              (with_deadline input.action_deadline_at now) s.hands;
      },
      action_ack input input.ack true,
    )

  unfoldable pub commit_in_database :
      CommitActionInput J
      → ℕ
      → GameTables L T J
      → Result StoreError (GameTables L T J × DurableActionAck J)
  unfolding commit_unless_done find_table_operation
  commit_in_database input now s =
      commit_unless_done (find_table_operation d input.action_id s) input now s

  -- The `catch` on P2002: the operation that another client committed.
  abbrev pub committed_elsewhere :
      CommitActionInput J
      → Option (TableOperation J)
      → GameTables L T J
      → Caught (GameTables L T J × DurableActionAck J)
  committed_elsewhere input none s = answer (err (database_error p2002))
  committed_elsewhere input (some existing) s = answer (
      if is_same_action input existing
      then ok (s, action_ack input existing.ack false)
      else err (thrown "ACTION_ID_CONFLICT"))

  abbrev pub commit_catch :
      CommitActionInput J
      → ℕ
      → GameTables L T J
      → FailureCode
      → Caught (GameTables L T J × DurableActionAck J)
  commit_catch input left s p2034 = rethrow_unless true left p2034
  commit_catch input left s p2002 =
      committed_elsewhere input (d.tables.find_first (is_operation input.action_id) s.operations) s
  commit_catch input left s other_code = answer (err (database_error other_code))

  unfoldable pub commit_durable_action :
      (ℕ → Option FailureCode)
      → (ℕ → GameTables L T J)
      → (ℕ → ℕ)
      → CommitActionInput J
      → Result StoreError (GameTables L T J × DurableActionAck J)
  unfolding commit_in_database
  commit_durable_action failure seen now input =
      attempts exhausted failure (λ attempt. commit_in_database input (now attempt) (seen attempt))
        (λ attempt left code. commit_catch input left (seen attempt) code) 5 1

  abbrev pub committed_ack : TableOperation J → String → DurableActionAck J
  committed_ack o hand = record {
    room_id = o.room_id;
    hand_id = hand;
    action_id = o.action_id;
    actor_user_id = o.user_id;
    payload_hash = o.payload_hash;
    ack = o.ack;
    committed = false;
  }

  -- `operation?.type === "ACTION" && operation.handId`.
  abbrev pub ack_of_operation : Option (TableOperation J) → Option (DurableActionAck J)
  ack_of_operation none = none
  ack_of_operation (some o) =
      if o.type === "ACTION" && not (text_or_empty o.hand_id === "")
      then some (committed_ack o (text_or_empty o.hand_id))
      else none

  unfoldable pub find_committed_action : String → GameTables L T J → Option (DurableActionAck J)
  unfolding find_table_operation
  find_committed_action action s = ack_of_operation (find_table_operation d action s)

  unfoldable pub list_active_recovery_room_ids : GameTables L T J → List String
  list_active_recovery_room_ids s = to_set ◌===◌ (
      map (λ h. h.room_id)
        (d.tables.find_many
          (λ h.
            h.status === "IN_PROGRESS"
            && is_some (
                d.tables.find_first (λ r. r.id === h.room_id && not (r.status === "DRAINING"))
                  s.rooms))
          s.hands))
