-- ===== src/Store/Game/Seats.antt =====
-- packages/db/src/game-server.ts: rooms, and the seats at a table.
use porker_monorepo.Base.{
  Bool, List, Option, Result, String, [], any, find, is_some, length, ltb, map, none, not, ok, some,
  sort, suc, template, zero, ℕ, ◌&&◌, ◌+◌, ◌===◌, ◌==◌, ◌>>=◌, ◌>>◌, ◌||◌, ◌∷◌,
}
use porker_monorepo.Ledger.{transfer_of}
use porker_monorepo.Ledger.Integers.{ltb_ℤ, ℤ}
use porker_monorepo.Store.{Database, FailureCode, StoreError, attempts, post_in_database, require}
use porker_monorepo.Store.Game.{
  GameTables, PublicRoomRecord, Room, Seat, TableOperation, TableSeatRecord, exhausted, is_text,
  or_not_found, or_thrown, retry_p2034,
}

pub record CreateRoomInput : Type 0 where
  pub name : String
  pub seat_count : ℕ
  pub small_blind : ℤ
  pub big_blind : ℤ
  pub min_buy_in : ℤ
  pub max_buy_in : ℤ
  pub action_timeout_seconds : ℕ

pub record ClaimSeatInput : Type 0 where
  pub room_id : String
  pub user_id : String
  pub buy_in : ℤ

pub record ReleaseSeatInput : Type 0 where
  pub room_id : String
  pub user_id : String
  pub action_id : String
  pub payload_hash : String

abbrev pub points_account : String → String
points_account user = template ("points:" ∷ user ∷ [])

abbrev pub table_account : String → String
table_account room = template ("table:" ∷ room ∷ [])

-- `{ length: n }` with its indices.
abbrev pub indices_from : ℕ → ℕ → List ℕ
indices_from start zero = []
indices_from start (suc n) = start ∷ indices_from (start + 1) n

-- `Array.from({ length: seatCount }, (_, index) => index).find((c) => !occupied.has(c))`.
unfoldable pub first_free : ℕ → List ℕ → Option ℕ
first_free seat_count occupied =
    find (λ candidate. not (any (λ n. n == candidate) occupied)) (indices_from 0 seat_count)

abbrev pub is_held_by : String → String → Seat → Bool
is_held_by room user seat = seat.room_id === room && is_text seat.user_id user

abbrev pub is_in_room : String → Seat → Bool
is_in_room room seat = seat.room_id === room

abbrev pub seat_record : String → String → Seat → TableSeatRecord
seat_record user name seat = record {
  user_id = user;
  display_name = name;
  seat_number = seat.seat_number;
  stack = seat.stack;
}

abbrev pub claimed_seat : ClaimSeatInput → String → ℕ → Seat
claimed_seat input id number = record {
  id = id;
  room_id = input.room_id;
  user_id = some input.user_id;
  seat_number = number;
  status = "SEATED";
  stack = input.buy_in;
  buy_in = input.buy_in;
}

abbrev pub public_room : ℕ → Room → PublicRoomRecord
public_room occupied room = record {
  id = room.id;
  name = room.name;
  seat_count = room.seat_count;
  small_blind = room.small_blind;
  big_blind = room.big_blind;
  min_buy_in = room.min_buy_in;
  max_buy_in = room.max_buy_in;
  action_timeout_seconds = room.action_timeout_seconds;
  status = room.status;
  occupied_seats = occupied;
}

-- The row that the defaults of the schema complete.
abbrev pub new_room : CreateRoomInput → String → Room
new_room input id = record {
  id = id;
  name = input.name;
  status = "WAITING";
  visibility = "PUBLIC";
  game_type = "CASH";
  seat_count = input.seat_count;
  small_blind = input.small_blind;
  big_blind = input.big_blind;
  min_buy_in = input.min_buy_in;
  max_buy_in = input.max_buy_in;
  action_timeout_seconds = input.action_timeout_seconds;
}

abbrev pub is_public : Room → Bool
is_public room = room.visibility === "PUBLIC" && room.game_type === "CASH"

abbrev pub is_operation : String → {J : Type 0} → TableOperation J → Bool
is_operation action o = o.action_id === action

abbrev pub is_same_leave : ReleaseSeatInput → {J : Type 0} → TableOperation J → Bool
is_same_leave input o =
    o.room_id === input.room_id
    && o.user_id === input.user_id
    && o.type === "LEAVE"
    && o.payload_hash === input.payload_hash

-- `seat.userId!`, where the query wants it to be there.
abbrev pub text_or_empty : Option String → String
text_or_empty none = ""
text_or_empty (some t) = t

module _ {L : Type 0} {T : Type 0 → Type 0} {J : Type 0} (d : Database L T)
    (leave_ack : String → ℤ → J) where
  unfoldable pub create_public_room :
      CreateRoomInput → String → GameTables L T J → GameTables L T J × PublicRoomRecord
  create_public_room input id s =
      let room = new_room input id in
      (record s { rooms = d.tables.create room s.rooms }, public_room 0 room)

  unfoldable pub list_public_rooms : GameTables L T J → List PublicRoomRecord
  list_public_rooms s =
      map
        (λ room.
          public_room
            (length (
              d.tables.find_many (λ seat. is_in_room room.id seat && seat.status === "SEATED")
                s.seats))
            room)
        (d.tables.find_many is_public s.rooms)

  -- `seat.user?.displayName ?? ""`.
  abbrev pub display_name_of : String → GameTables L T J → String
  display_name_of user s = elim (d.tables.find_first (λ u. u.id === user) s.users) [
    | none ↦ ""
    | some u ↦ u.display_name
  ]

  abbrev pub occupied_seats : String → GameTables L T J → List ℕ
  occupied_seats room s =
      map (λ seat. seat.seat_number) (d.tables.find_many (is_in_room room) s.seats)

  -- The rest of the transaction, once the seat of the user was looked up.
  unfoldable pub claim_unless_seated :
      Option Seat
      → ClaimSeatInput
      → String
      → String
      → Room
      → GameTables L T J
      → Result StoreError (GameTables L T J × TableSeatRecord)
  claim_unless_seated (some existing) input reference seat_id room s =
      ok (s, seat_record input.user_id (display_name_of input.user_id s) existing)
  claim_unless_seated none input reference seat_id room s = do
    require (not (ltb_ℤ input.buy_in room.min_buy_in || ltb_ℤ room.max_buy_in input.buy_in))
        "INVALID_SEAT_OR_BUY_IN"
    number ← or_thrown (first_free room.seat_count (occupied_seats input.room_id s)) "ROOM_FULL"
    posted ←
        post_in_database d
          (transfer_of d.ledger d.digest reference (points_account input.user_id)
            (table_account input.room_id) input.buy_in)
          (some (points_account input.user_id)) s.ledger
    let seat = claimed_seat input seat_id number
    ok (
      record s { ledger = posted.0; seats = d.tables.create seat s.seats },
      seat_record input.user_id (display_name_of input.user_id s) seat,
    )

  unfoldable pub claim_in_database :
      ClaimSeatInput
      → String
      → String
      → GameTables L T J
      → Result StoreError (GameTables L T J × TableSeatRecord)
  unfolding claim_unless_seated
  claim_in_database input reference seat_id s = do
    room ← or_not_found (d.tables.find_first (λ r. r.id === input.room_id) s.rooms)
    require (not (room.status === "DRAINING")) "ROOM_DRAINING"
    claim_unless_seated (d.tables.find_first (is_held_by input.room_id input.user_id) s.seats) input
        reference seat_id room s

  -- The reference is drawn once, before the attempts.
  unfoldable pub claim_table_seat :
      (ℕ → Option FailureCode)
      → (ℕ → GameTables L T J)
      → (ℕ → String)
      → String
      → ClaimSeatInput
      → Result StoreError (GameTables L T J × TableSeatRecord)
  unfolding claim_in_database
  claim_table_seat failure seen seat_id uuid input =
      attempts exhausted failure
        (λ attempt.
          claim_in_database input
            (template ("buy-in:" ∷ input.room_id ∷ ":" ∷ input.user_id ∷ ":" ∷ uuid ∷ []))
            (seat_id attempt) (seen attempt))
        retry_p2034 5 1

  unfoldable pub list_table_seats : String → GameTables L T J → List TableSeatRecord
  list_table_seats room s =
      map
        (λ seat.
          seat_record (text_or_empty seat.user_id) (display_name_of (text_or_empty seat.user_id) s)
            seat)
        (sort (λ a b. ltb a.seat_number b.seat_number)
          (d.tables.find_many
            (λ seat. is_in_room room seat && seat.status === "SEATED" && is_some seat.user_id)
            s.seats))
