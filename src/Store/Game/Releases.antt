-- ===== src/Store/Game/Releases.antt =====
-- packages/db/src/game-server.ts: leaving a seat, and draining a room.
use porker_monorepo.Base.{
  Bool, Option, Result, String, [], err, false, if◌then◌else◌, ltb, none, ok, some, template, true,
  ℕ, ◌===◌, ◌>>=◌, ◌>>◌, ◌∷◌,
}
use porker_monorepo.Ledger.{transfer_of}
use porker_monorepo.Ledger.Integers.{ltb_ℤ, pos, ℤ}
use porker_monorepo.Store.{
  Caught, Database, FailureCode, StoreError, answer, attempts, database_error, other_code, p2002,
  p2034, post_in_database, require, rethrow_unless, thrown, try_again,
}
use porker_monorepo.Store.Game.{
  GameTables, Seat, TableOperation, exhausted, or_not_found, or_thrown,
}
use porker_monorepo.Store.Game.Seats.{
  ReleaseSeatInput, is_held_by, is_operation, is_same_leave, points_account, table_account,
}

module _ {L : Type 0} {T : Type 0 → Type 0} {J : Type 0} (d : Database L T)
    (leave_ack : String → ℤ → J) where
  -- `if (seat.stack > 0n)`, the stack is cashed out.
  unfoldable pub cash_out : ReleaseSeatInput → Seat → L → Result StoreError L
  cash_out input seat ledger =
      if ltb_ℤ (pos 0) seat.stack
      then (do
        posted ←
            post_in_database d
              (transfer_of d.ledger d.digest (template ("cash-out:" ∷ seat.id ∷ []))
                (table_account input.room_id) (points_account input.user_id) seat.stack)
              (some (table_account input.room_id)) ledger
        ok (posted.0))
      else ok ledger

  abbrev pub leave_operation : ReleaseSeatInput → ℤ → TableOperation J
  leave_operation input stack = record {
    action_id = input.action_id;
    room_id = input.room_id;
    user_id = input.user_id;
    type = "LEAVE";
    hand_id = none;
    payload_hash = input.payload_hash;
    ack = leave_ack input.user_id stack;
  }

  unfoldable pub release_unless_done :
      Option (TableOperation J)
      → ReleaseSeatInput
      → GameTables L T J
      → Result StoreError (GameTables L T J × J × Bool)
  unfolding cash_out
  release_unless_done (some operation) input s = do
    require (is_same_leave input operation) "ACTION_ID_CONFLICT"
    ok (s, operation.ack, false)
  release_unless_done none input s = do
    seat ←
        or_thrown (d.tables.find_first (is_held_by input.room_id input.user_id) s.seats)
          "NOT_SEAT_OWNER"
    ledger ← cash_out input seat s.ledger
    ok (
      record s {
        ledger = ledger;
        operations = d.tables.create (leave_operation input seat.stack) s.operations;
        seats = d.tables.delete (λ r. r.id === seat.id) s.seats;
      },
      leave_ack input.user_id seat.stack,
      true,
    )

  unfoldable pub release_in_database :
      ReleaseSeatInput → GameTables L T J → Result StoreError (GameTables L T J × J × Bool)
  unfolding release_unless_done
  release_in_database input s =
      release_unless_done (d.tables.find_first (is_operation input.action_id) s.operations) input s

  -- The `catch` on P2002: the operation that another client committed.
  abbrev pub released_elsewhere :
      ReleaseSeatInput
      → ℕ
      → Option (TableOperation J)
      → GameTables L T J
      → Caught (GameTables L T J × J × Bool)
  released_elsewhere input left none s =
      if ltb 0 left then try_again else answer (err (database_error p2002))
  released_elsewhere input left (some operation) s = answer (
      if is_same_leave input operation
      then ok (s, operation.ack, false)
      else err (thrown "ACTION_ID_CONFLICT"))

  abbrev pub release_catch :
      ReleaseSeatInput → ℕ → GameTables L T J → FailureCode → Caught (GameTables L T J × J × Bool)
  release_catch input left s p2034 = rethrow_unless true left p2034
  release_catch input left s p2002 =
      released_elsewhere input left
        (d.tables.find_first (is_operation input.action_id) s.operations) s
  release_catch input left s other_code = answer (err (database_error other_code))

  unfoldable pub release_table_seat :
      (ℕ → Option FailureCode)
      → (ℕ → GameTables L T J)
      → ReleaseSeatInput
      → Result StoreError (GameTables L T J × J × Bool)
  unfolding release_in_database
  release_table_seat failure seen input =
      attempts exhausted failure (λ attempt. release_in_database input (seen attempt))
        (λ attempt left code. release_catch input left (seen attempt) code) 5 1

  unfoldable pub set_room_draining :
      String → GameTables L T J → Result StoreError (GameTables L T J)
  set_room_draining room s = do
    _ ← or_not_found (d.tables.find_first (λ r. r.id === room) s.rooms)
    ok (record s {
      rooms = d.tables.update (λ r. r.id === room) (λ r. record r { status = "DRAINING" }) s.rooms;
    })
