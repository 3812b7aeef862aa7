-- ===== src/Gateway/Samples.antt =====
-- A concrete room, with its table in memory and in the database.
use porker_monorepo.Base.{
  List, Option, String, [], false, if◌then◌else◌, map, none, some, ℕ, ◌===◌, ◌∷◌,
}
use porker_monorepo.Engine.Commands.{fold, player_folded}
use porker_monorepo.Engine.Samples.{ann, bob, cyd, first_state}
use porker_monorepo.Engine.Table.{TableState, folded}
use porker_monorepo.Gateway.{
  Effect, GatewayState, RoundEvent, Stored, TableRuntime, acknowledged, envelope, game,
  next_hand_cancelled, table_event, timeout_scheduled,
}
use porker_monorepo.Gateway.Actions.{ActionRequest, turn_of}
use porker_monorepo.Gateway.Turns.{Surroundings, commit_input}
use porker_monorepo.Ledger.Integers.{pos}
use porker_monorepo.Ledger.Samples.{Rows}
use porker_monorepo.Store.Game.{GameTables, Room, Seat}
use porker_monorepo.Store.Game.Actions.{after_commit}
use porker_monorepo.Store.Game.Commits.{CommitActionInput}
use porker_monorepo.Store.Game.Hands.{snapshot_row}
use porker_monorepo.Store.Samples.{database, list_laws}

abbrev pub table_room : Room
table_room = record {
  id = "table";
  name = "room";
  status = "WAITING";
  visibility = "PUBLIC";
  game_type = "CASH";
  seat_count = 3;
  small_blind = pos 5;
  big_blind = pos 10;
  min_buy_in = pos 20;
  max_buy_in = pos 100;
  action_timeout_seconds = 30;
}

abbrev pub seat_at : String → ℕ → Seat
seat_at user number = record {
  id = user;
  room_id = "table";
  user_id = some user;
  seat_number = number;
  status = "SEATED";
  stack = pos 40;
  buy_in = pos 40;
}

abbrev pub hall : GameTables Rows List Stored
hall = record {
  ledger = record { transactions = []; entries = [] };
  users = [];
  rooms = table_room ∷ [];
  seats = seat_at "ann" 0 ∷ seat_at "bob" 1 ∷ seat_at "cyd" 2 ∷ [];
  hands =
      record {
        id = "hand-1";
        room_id = "table";
        hand_number = 1;
        status = "IN_PROGRESS";
        action_deadline_at = some 100;
        completed_at = none;
      }
      ∷ [];
  events = [];
  snapshots = snapshot_row "table" "hand-1" 0 (envelope "opened") ∷ [];
  operations = [];
  graces = [];
  audits = [];
  nonces = [];
  sessions = [];
}

abbrev pub opened : GatewayState Rows List
opened = record {
  store = hall;
  runtimes = ("table", record { state = first_state; action_deadline_at = some 100 }) ∷ [];
}

abbrev pub ann_folds : ActionRequest
ann_folds = record {
  room_id = "table";
  hand_id = "hand-1";
  action_id = "a1";
  expected_version = 0;
  action = fold;
}

-- The table after that: bob is to act.
abbrev pub folded_table : TableState
folded_table = record first_state {
  version = 1;
  actor_id = "bob";
  players = record ann { status = folded } ∷ bob ∷ cyd ∷ [];
  acted_player_ids = "ann" ∷ [];
  raise_rights = "bob" ∷ "cyd" ∷ [];
  last_acted_bet = ("ann", 10) ∷ [];
}

abbrev pub seal : TableState → String
seal state = "sealed"

abbrev pub unseal : String → Option TableState
unseal text = if text === "sealed" then some folded_table else none

abbrev pub hash_request : ActionRequest → String
hash_request q = "hash"

abbrev pub calm : Surroundings
calm = record { fails_at = λ i. none; commit_time = λ i. 50; now = 50; later = 51 }

abbrev pub fold_event : RoundEvent
fold_event = game (player_folded "ann")

abbrev pub fold_ack : Stored
fold_ack =
    acknowledged
      (record { action_id = "a1"; version = 1; events = fold_event ∷ []; automatic = false })

abbrev pub folded_runtime : TableRuntime
folded_runtime = record { state = folded_table; action_deadline_at = some 30050 }

abbrev pub fold_input : CommitActionInput Stored
fold_input =
    commit_input seal (turn_of database unseal seal hash_request "ann" ann_folds) (some 30050)
      (record { state = folded_table; events = fold_event ∷ [] })

abbrev pub folded_hall : GameTables Rows List Stored
folded_hall =
    after_commit database list_laws fold_input 50
      (map (λ (e : String × ℕ × ℕ). record (seat_at (e.0) (e.1)) { stack = pos (e.2) })
        (("ann", 0, ann.stack) ∷ ("bob", 1, bob.stack) ∷ ("cyd", 2, cyd.stack) ∷ []))
      hall

abbrev pub after_fold : GatewayState Rows List
after_fold = record { store = folded_hall; runtimes = ("table", folded_runtime) ∷ [] }

abbrev pub fold_sent : List Effect
fold_sent =
    table_event "table" "hand-1" 1 fold_event
    ∷ next_hand_cancelled "table"
    ∷ timeout_scheduled "table" 30050
    ∷ []
