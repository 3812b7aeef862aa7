-- ===== src/Gateway/Turns.antt =====
-- apps/poker-api/src/game/game.gateway.ts: what the actions of players and of the clock share.
use porker_monorepo.Base.{
  ===_refl, Bool, List, Option, Result, String, ap, err, find, if◌then◌else◌, insert, lookup,
  lookup-insert, map, none, ok, ok-injective, some, ℕ, ◌&&◌, ◌++◌, ◌===◌, ◌∙◌, ◌≡◌,
}
use porker_monorepo.Engine.Error.{EngineError}
use porker_monorepo.Engine.Table.{TableState, is_complete}
use porker_monorepo.Gateway.{
  Effect, Finalized, GatewayState, Stored, TableRuntime, acknowledged, action_deadline,
  broadcast_events, cashed_out, envelope, or_engine, schedule_next_hand, seat_stacks, stored_event,
}
use porker_monorepo.Store.{Database, FailureCode, StoreError}
use porker_monorepo.Store.Game.{
  DurableActionAck, GameTables, PublicRoomRecord, TableOperation, is_text,
}
use porker_monorepo.Store.Game.Commits.{CommitActionInput, commit_durable_action}
use porker_monorepo.Store.Game.Seats.{list_public_rooms}

-- What the handlers take from outside: the failures of the database and the clock. `now` is the time
-- at which the deadline is set, `later` the time after the commit.
pub record Surroundings : Type 0 where
  pub fails_at : ℕ → Option FailureCode
  pub commit_time : ℕ → ℕ
  pub now : ℕ
  pub later : ℕ

-- The operation is this action of this user.
abbrev pub is_replay : String → String → String → String → TableOperation Stored → Bool
is_replay room hand user hash o =
    o.type === "ACTION"
    && o.room_id === room
    && is_text o.hand_id hand
    && o.user_id === user
    && o.payload_hash === hash

abbrev pub deadline_of : TableState → ℕ → ℕ → Option ℕ
deadline_of state now seconds =
    if is_complete state.phase then none else some (action_deadline now seconds)

-- What `commitAction` is told of an action, apart from its outcome.
pub record Turn : Type 0 where
  pub room_id : String
  pub hand_id : String
  pub action_id : String
  pub actor_user_id : String
  pub payload_hash : String
  pub expected_version : ℕ
  pub automatic : Bool

-- `broadcastEvents` and `scheduleNextHand`, after an action.
abbrev pub announced : Turn → PublicRoomRecord → Finalized → List Effect
announced taken room f =
    broadcast_events taken.room_id taken.hand_id f.state.version f.events
    ++ schedule_next_hand taken.room_id taken.hand_id f.state room.min_buy_in

abbrev pub runtime_of : Finalized → Option ℕ → TableRuntime
runtime_of f deadline = record { state = f.state; action_deadline_at = deadline }

abbrev pub commit_input :
    (TableState → String) → Turn → Option ℕ → Finalized → CommitActionInput Stored
commit_input encrypt taken deadline f = record {
  room_id = taken.room_id;
  hand_id = taken.hand_id;
  action_id = taken.action_id;
  actor_user_id = taken.actor_user_id;
  payload_hash = taken.payload_hash;
  expected_version = taken.expected_version;
  events = map stored_event f.events;
  state = envelope (encrypt f.state);
  ack = acknowledged (record {
    action_id = taken.action_id;
    version = f.state.version;
    events = f.events;
    automatic = taken.automatic;
  });
  seat_stacks = seat_stacks f.state;
  new_version = f.state.version;
  action_deadline_at = deadline;
}

module _ {L : Type 0} {T : Type 0 → Type 0} (d : Database L T) where
  -- `findRoom`.
  abbrev pub find_room : String → GatewayState L T → Option PublicRoomRecord
  find_room room s = find (λ r. r.id === room) (list_public_rooms d cashed_out s.store)

  abbrev pub commits :
      Surroundings
      → CommitActionInput Stored
      → GatewayState L T
      → Result StoreError (GameTables L T Stored × DurableActionAck Stored)
  commits w input s = commit_durable_action d w.fails_at (λ attempt. s.store) w.commit_time input

pub or_engine-ok {ℓ} :
    {A : Type ℓ} (r : Result EngineError A) {a : A} → or_engine r ≡ ok a → r ≡ ok a
or_engine-ok (ok b) h = ap ok (ok-injective h)
or_engine-ok (err e) h = cc

pub insert_self :
    (room : String) (runtime : TableRuntime) (runtimes : List (String × TableRuntime))
    → lookup room (insert room runtime runtimes) ≡ some runtime
insert_self room runtime runtimes =
    lookup-insert room room runtime runtimes
    ∙ ap (λ b. if b then some runtime else lookup room runtimes) (===_refl room)
