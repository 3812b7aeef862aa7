-- ===== src/Gateway/RoomWitnesses.antt =====
-- The theorems about the next hand and about leaving, at a concrete room.
use porker_monorepo.Base.{List, String, [], none, ok, refl, some, ◌++◌, ◌===◌, ◌∷◌, ◌≡◌, ◌⊎◌}
use porker_monorepo.Engine.Advance.{advance_hand}
use porker_monorepo.Engine.Cards.{parse_card, validate_deck}
use porker_monorepo.Engine.Invariants.{assert_invariants}
use porker_monorepo.Engine.Lifecycle.{next_funded_player}
use porker_monorepo.Engine.Samples.{next_options, next_state, topped_table}
use porker_monorepo.Gateway.{
  Effect, GatewayState, Reply, Stored, cashed_out, envelope, lobby_rooms, success, table_left,
  table_snapshot, timeout_scheduled,
}
use porker_monorepo.Gateway.Leave.{LeaveRequest, leave_under_lock}
use porker_monorepo.Gateway.Leave.LastHand.{MayLeave, leave_under_lock-MayLeave}
use porker_monorepo.Gateway.NextHand.{Dealt, FreshHand, start_next_hand, start_next_hand-Dealt}
use porker_monorepo.Gateway.Samples.{calm, hall, seal, seat_at, table_room, unseal}
use porker_monorepo.Ledger.Integers.{pos}
use porker_monorepo.Ledger.Samples.{Rows}
use porker_monorepo.Store.{FailureCode, attempts}
use porker_monorepo.Store.Game.{GameTables}
use porker_monorepo.Store.Game.Hands.{
  create_durable_hand, find_table_operation, load_latest_table_snapshot, snapshot_row, store_stacks,
}
use porker_monorepo.Store.Game.Releases.{
  cash_out, leave_operation, release_in_database, release_table_seat,
}
use porker_monorepo.Store.Game.Seats.{list_public_rooms}
use porker_monorepo.Store.Samples.{database}

-- The hand after the showdown, in a room without a least buy-in.
abbrev open_hall : GameTables Rows List Stored
open_hall = record hall { rooms = record table_room { min_buy_in = pos 0 } ∷ [] }

abbrev between : GatewayState Rows List
between = record {
  store = open_hall;
  runtimes = ("table", record { state = topped_table; action_deadline_at = none }) ∷ [];
}

abbrev second_hand : FreshHand
second_hand = record { hand_id = "hand-2"; deck = next_options.deck; encrypted_audit = "audit" }

abbrev second_hall : GameTables Rows List Stored
second_hall = record open_hall {
  hands =
      open_hall.hands
      ++ record {
        id = "hand-2";
        room_id = "table";
        hand_number = 2;
        status = "IN_PROGRESS";
        action_deadline_at = some 30050;
        completed_at = none;
      }
        ∷ [];
  snapshots = open_hall.snapshots ++ snapshot_row "table" "hand-2" 0 (envelope "sealed") ∷ [];
  audits =
      record {
        action = "HAND_DECK_ENCRYPTED";
        target_type = "Hand";
        target_id = "hand-2";
        ciphertext = "audit";
      }
      ∷ [];
  seats =
      record (seat_at "ann" 0) { stack = pos 165 }
      ∷ record (seat_at "bob" 1) { stack = pos 45 }
      ∷ record (seat_at "cyd" 2) { stack = pos 0 }
      ∷ [];
}

abbrev dealt : GatewayState Rows List × List Effect
dealt = (
  record {
    store = second_hall;
    runtimes =
        (
          "table",
          record { state = record next_state { version = 0 }; action_deadline_at = some 30050 },
        )
        ∷ [];
  },
  table_snapshot "table" "hand-2" 0 ∷ timeout_scheduled "table" 30050 ∷ [],
)

next_hand_runs :
    start_next_hand database unseal seal "table" "hand-1" second_hand 50 between ≡ ok dealt
unfolding start_next_hand list_public_rooms advance_hand create_durable_hand assert_invariants
    validate_deck parse_card next_funded_player store_stacks ◌===◌
next_hand_runs = refl

start_next_hand-Dealt_example :
    (dealt ≡ (between, [])) ⊎ Dealt database unseal seal "table" second_hand topped_table (dealt.0)
unfolding ◌===◌
start_next_hand-Dealt_example =
    start_next_hand-Dealt database unseal seal "table" "hand-1" second_hand 50 between
      (record { state = topped_table; action_deadline_at = none }) {after = dealt} refl
      next_hand_runs

-- Bob leaves, with no chips, a room in which no hand was played.
abbrev bob_sits : GatewayState Rows List
bob_sits = record {
  store = record hall { seats = record (seat_at "bob" 1) { stack = pos 0 } ∷ []; snapshots = [] };
  runtimes = [];
}

abbrev bob_goes : LeaveRequest
bob_goes = record { room_id = "table"; action_id = "a2" }

abbrev hash_departure : LeaveRequest → String
hash_departure q = "hash"

abbrev no_message : FailureCode → String
no_message code = ""

abbrev gone_hall : GameTables Rows List Stored
gone_hall = record (bob_sits.store) {
  seats = [];
  operations =
      leave_operation database cashed_out
        (record { room_id = "table"; user_id = "bob"; action_id = "a2"; payload_hash = "hash" })
        (pos 0)
      ∷ [];
}

abbrev gone : GatewayState Rows List × Reply × List Effect
gone = (
  record { store = gone_hall; runtimes = [] },
  success (cashed_out "bob" (pos 0)),
  table_left "table" (cashed_out "bob" (pos 0))
      ∷ lobby_rooms (list_public_rooms database cashed_out gone_hall)
      ∷ [],
)

bob_leaves_room :
    leave_under_lock database unseal hash_departure no_message calm "bob" bob_goes bob_sits
    ≡ ok gone
unfolding leave_under_lock find_table_operation list_public_rooms load_latest_table_snapshot
    release_table_seat attempts release_in_database cash_out ◌===◌
bob_leaves_room = refl

leave_under_lock-MayLeave_example :
    (gone.2 ≡ []) ⊎ MayLeave database unseal hash_departure no_message bob_goes bob_sits
leave_under_lock-MayLeave_example =
    leave_under_lock-MayLeave database unseal hash_departure no_message calm "bob" bob_goes bob_sits
      {after = gone} bob_leaves_room
