-- ===== src/Store/Game/Hands.antt =====
-- packages/db/src/game-server.ts: hands, and what reads them back.
use porker_monorepo.Base.{
  Bool, List, Option, Result, String, [], ltb, map, none, not, ok, some, sort, ℕ, ◌&&◌, ◌+◌, ◌===◌,
  ◌>>=◌, ◌>>◌, ◌∷◌,
}
use porker_monorepo.Ledger.Integers.{ltb_ℤ, pos, ℤ}
use porker_monorepo.Store.{Database, StoreError, require}
use porker_monorepo.Store.Game.{
  DurableHandEvent, DurableTableSnapshot, GameSnapshot, GameTables, Hand, HandEvent, Seat,
  SeatStack, TableOperation, last, last_by,
}
use porker_monorepo.Store.Game.Seats.{is_held_by, is_operation}

pub record CreateHandInput (J : Type 0) : Type 0 where
  pub room_id : String
  pub hand_id : String
  pub state : J
  pub encrypted_audit : String
  pub seat_stacks : List SeatStack
  pub action_deadline_at : ℕ

abbrev pub value_or_zero_of {ℓ} : {R : Type ℓ} → (R → ℕ) → Option R → ℕ
value_or_zero_of key none = 0
value_or_zero_of key (some r) = key r

abbrev pub snapshot_row : {J : Type 0} → String → String → ℕ → J → GameSnapshot J
snapshot_row room hand version state = record {
  room_id = room;
  hand_id = hand;
  version = version;
  state = state;
}

abbrev pub durable_event : {J : Type 0} → HandEvent J → DurableHandEvent J
durable_event event = record {
  sequence = event.sequence;
  version = event.version;
  type = event.type;
  payload = event.payload;
  action_id = event.action_id;
}

abbrev pub is_snapshot_of : {J : Type 0} → String → String → GameSnapshot J → Bool
is_snapshot_of room hand r = r.room_id === room && r.hand_id === hand

abbrev pub by_sequence : {J : Type 0} → HandEvent J → HandEvent J → Bool
by_sequence a b = ltb a.sequence b.sequence

abbrev pub with_stack : ℤ → Seat → Seat
with_stack stack seat = record seat { stack = stack }

module _ {L : Type 0} {T : Type 0 → Type 0} (d : Database L T) where
  -- The loop over the stacks: a negative one is refused.
  unfoldable pub store_stacks : String → List SeatStack → T Seat → Result StoreError (T Seat)
  store_stacks room [] rows = ok rows
  store_stacks room (stack ∷ stacks) rows = do
    require (not (ltb_ℤ stack.stack (pos 0))) "INVALID_SEAT_STACK"
    store_stacks room stacks
        (d.tables.update (is_held_by room stack.user_id) (with_stack stack.stack) rows)

module _ {L : Type 0} {T : Type 0 → Type 0} {J : Type 0} (d : Database L T) where
  unfoldable pub create_durable_hand :
      CreateHandInput J
      → GameTables L T J
      → Result StoreError (GameTables L T J × DurableTableSnapshot J)
  unfolding store_stacks
  create_durable_hand input s = do
    let latest =
        last_by (λ (h : Hand). h.hand_number)
          (d.tables.find_many (λ h. h.room_id === input.room_id) s.hands)
    stored ← store_stacks d input.room_id input.seat_stacks s.seats
    ok (
      record s {
        hands =
            d.tables.create
              (record {
                id = input.hand_id;
                room_id = input.room_id;
                hand_number = value_or_zero_of (λ (h : Hand). h.hand_number) latest + 1;
                status = "IN_PROGRESS";
                action_deadline_at = some input.action_deadline_at;
                completed_at = none;
              })
              s.hands;
        snapshots =
            d.tables.create (snapshot_row input.room_id input.hand_id 0 input.state) s.snapshots;
        audits =
            d.tables.create
              (record {
                action = "HAND_DECK_ENCRYPTED";
                target_type = "Hand";
                target_id = input.hand_id;
                ciphertext = input.encrypted_audit;
              })
              s.audits;
        seats = stored;
      },
      record {
        room_id = input.room_id;
        hand_id = input.hand_id;
        version = 0;
        state = input.state;
        action_deadline_at = some input.action_deadline_at;
        hand_status = "IN_PROGRESS";
        hand_room_id = input.room_id;
      },
    )

  -- `include: { hand }`: the hand of a snapshot, which its foreign key keeps.
  abbrev pub durable_snapshot : GameSnapshot J → Option Hand → Option (DurableTableSnapshot J)
  durable_snapshot r none = none
  durable_snapshot r (some hand) = some (record {
    room_id = r.room_id;
    hand_id = r.hand_id;
    version = r.version;
    state = r.state;
    action_deadline_at = hand.action_deadline_at;
    hand_status = hand.status;
    hand_room_id = hand.room_id;
  })

  abbrev pub snapshot_with_hand :
      Option (GameSnapshot J) → GameTables L T J → Option (DurableTableSnapshot J)
  snapshot_with_hand none s = none
  snapshot_with_hand (some r) s =
      durable_snapshot r (d.tables.find_first (λ h. h.id === r.hand_id) s.hands)

  unfoldable pub load_latest_table_snapshot :
      String → GameTables L T J → Option (DurableTableSnapshot J)
  load_latest_table_snapshot room s =
      snapshot_with_hand (last (d.tables.find_many (λ r. r.room_id === room) s.snapshots)) s

  unfoldable pub load_hand_events_after : String → ℕ → GameTables L T J → List (DurableHandEvent J)
  load_hand_events_after hand sequence s = map durable_event (
      sort by_sequence
        (d.tables.find_many (λ e. e.hand_id === hand && ltb sequence e.sequence) s.events))

  unfoldable pub load_hand_events_since_version :
      String → ℕ → GameTables L T J → List (DurableHandEvent J)
  load_hand_events_since_version hand version s = map durable_event (
      sort by_sequence
        (d.tables.find_many (λ e. e.hand_id === hand && ltb version e.version) s.events))

  unfoldable pub find_table_operation : String → GameTables L T J → Option (TableOperation J)
  find_table_operation action s = d.tables.find_first (is_operation action) s.operations
