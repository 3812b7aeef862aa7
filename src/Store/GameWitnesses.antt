-- ===== src/Store/GameWitnesses.antt =====
-- The theorems about seats and actions at a concrete database, and tests of the definitions.
use porker_monorepo.Base.{
  List, String, [], arith, err, false, find, none, ok, refl, some, true, ◌++◌, ◌===◌, ◌∷◌, ◌≡◌,
}
use porker_monorepo.Ledger.{
  normalize_entries, post_prepared_transaction, post_transaction_in_database, prepare_transaction,
}
use porker_monorepo.Ledger.Integers.{negsuc, pos, ℤ, ◌+ℤ◌, ◌-ℤ◌}
use porker_monorepo.Ledger.Samples.{Rows, posted_row, tagged}
use porker_monorepo.Store.{thrown}
use porker_monorepo.Store.Game.{GameTables, Room, Seat}
use porker_monorepo.Store.Game.Actions.{after_commit, commit_in_database-stale}
use porker_monorepo.Store.Game.Claims.{Seated, claim_in_database-Seated}
use porker_monorepo.Store.Game.Commits.{
  CommitActionInput, action_ack, commit_in_database, commit_unless_done,
}
use porker_monorepo.Store.Game.Hands.{find_table_operation, snapshot_row, with_stack}
use porker_monorepo.Store.Game.Leaving.{SeatsSound, release_in_database-MovesWithStacks}
use porker_monorepo.Store.Game.Numbering.{IsNumbered, commit_unless_done-IsNumbered}
use porker_monorepo.Store.Game.Releases.{leave_operation, release_in_database}
use porker_monorepo.Store.Game.Seats.{
  ClaimSeatInput, ReleaseSeatInput, claim_in_database, claimed_seat, first_free, is_held_by,
  occupied_seats, seat_record,
}
use porker_monorepo.Store.Game.Stacks.{MovesWithStacks, claim_in_database-MovesWithStacks}
use porker_monorepo.Store.Samples.{database, database_laws, list_laws}

abbrev left_ack : String → ℤ → String
left_ack user stack = user

abbrev cash_room : Room
cash_room = record {
  id = "r1";
  name = "room";
  status = "WAITING";
  visibility = "PUBLIC";
  game_type = "CASH";
  seat_count = 3;
  small_blind = pos 1;
  big_blind = pos 2;
  min_buy_in = pos 20;
  max_buy_in = pos 100;
  action_timeout_seconds = 30;
}

abbrev bob_seat : Seat
bob_seat = record {
  id = "s0";
  room_id = "r1";
  user_id = some "bob";
  seat_number = 0;
  status = "SEATED";
  stack = pos 40;
  buy_in = pos 40;
}

-- Bob sits with 40 chips, Ann has 80 points, and a hand is played at version 0.
abbrev house : GameTables Rows List String
house = record {
  ledger = record {
    transactions = [];
    entries =
        (0, record { account_id = "points:ann"; amount = pos 80 })
        ∷ (0, record { account_id = "table:r1"; amount = pos 40 })
        ∷ [];
  };
  users = [];
  rooms = cash_room ∷ [];
  seats = bob_seat ∷ [];
  hands =
      record {
        id = "h1";
        room_id = "r1";
        hand_number = 1;
        status = "IN_PROGRESS";
        action_deadline_at = some 100;
        completed_at = none;
      }
      ∷ [];
  events = [];
  snapshots = snapshot_row "r1" "h1" 0 "state-0" ∷ [];
  operations = [];
  graces = [];
  audits = [];
  nonces = [];
  sessions = [];
}

abbrev ann_claim : ClaimSeatInput
ann_claim = record { room_id = "r1"; user_id = "ann"; buy_in = pos 50 }

abbrev ann_seat : Seat
ann_seat = claimed_seat ann_claim "s1" 1

abbrev ann_sits : GameTables Rows List String
ann_sits = record house {
  ledger = record {
    transactions = posted_row 0 "buy-in-1" "hash" ∷ [];
    entries =
        (house.ledger).entries
        ++ tagged 0 (
            record { account_id = "points:ann"; amount = negsuc 49 }
            ∷ record { account_id = "table:r1"; amount = pos 50 }
            ∷ []);
  };
  seats = bob_seat ∷ ann_seat ∷ [];
}

claim_runs :
    claim_in_database database left_ack ann_claim "buy-in-1" "s1" house
    ≡ ok (ann_sits, seat_record "ann" "" ann_seat)
unfolding claim_in_database first_free post_transaction_in_database prepare_transaction
    post_prepared_transaction normalize_entries ◌+ℤ◌ ◌-ℤ◌ ◌===◌
claim_runs = refl

ann_stands : find (is_held_by "r1" "ann") house.seats ≡ none
unfolding ◌===◌
ann_stands = refl

claim_in_database-Seated_example :
    (room : Room) × (find (λ q. q.id === "r1") house.rooms ≡ some room)
    × ((room.status === "DRAINING") ≡ false)
    × Seated room
        (occupied_seats database left_ack "r1" house)
        (pos 50)
        (seat_record "ann" "" ann_seat)
claim_in_database-Seated_example =
    claim_in_database-Seated database left_ack ann_claim "buy-in-1" "s1" house
      {r = (ann_sits, seat_record "ann" "" ann_seat)} ann_stands claim_runs

claim_in_database-MovesWithStacks_example :
    MovesWithStacks database database_laws left_ack house ann_sits
claim_in_database-MovesWithStacks_example =
    claim_in_database-MovesWithStacks database database_laws left_ack ann_claim "buy-in-1" "s1"
      house {r = (ann_sits, seat_record "ann" "" ann_seat)} refl claim_runs

abbrev bob_leave : ReleaseSeatInput
bob_leave = record { room_id = "r1"; user_id = "bob"; action_id = "a9"; payload_hash = "p9" }

abbrev bob_left : GameTables Rows List String
bob_left = record house {
  ledger = record {
    transactions = posted_row 0 "cash-out:s0" "hash" ∷ [];
    entries =
        (house.ledger).entries
        ++ tagged 0 (
            record { account_id = "points:bob"; amount = pos 40 }
            ∷ record { account_id = "table:r1"; amount = negsuc 39 }
            ∷ []);
  };
  seats = [];
  operations = leave_operation database left_ack bob_leave (pos 40) ∷ [];
}

release_runs : release_in_database database left_ack bob_leave house ≡ ok (bob_left, "bob", true)
unfolding release_in_database post_transaction_in_database prepare_transaction
    post_prepared_transaction normalize_entries ◌+ℤ◌ ◌-ℤ◌ ◌===◌
release_runs = refl

house-SeatsSound : SeatsSound database database_laws left_ack house
house-SeatsSound = record {
  unique = λ id. ground arith;
  natural = (refl, tt);
  not_cashed = λ room user {seat} found. refl;
}

release_in_database-MovesWithStacks_example :
    MovesWithStacks database database_laws left_ack house bob_left
release_in_database-MovesWithStacks_example =
    release_in_database-MovesWithStacks database database_laws left_ack bob_leave house
      {r = (bob_left, "bob", true)} house-SeatsSound release_runs

abbrev action_of : String → CommitActionInput String
action_of id = record {
  room_id = "r1";
  hand_id = "h1";
  action_id = id;
  actor_user_id = "bob";
  payload_hash = "p1";
  expected_version = 0;
  events =
      record { type = "player-bet"; payload = "bet" }
      ∷ record { type = "street-completed"; payload = "flop" }
      ∷ [];
  state = "state-1";
  ack = "ack-1";
  seat_stacks = record { user_id = "bob"; stack = pos 30 } ∷ [];
  new_version = 1;
  action_deadline_at = some 200;
}

abbrev bob_acts : GameTables Rows List String
bob_acts =
    after_commit database list_laws (action_of "a1") 150 (with_stack (pos 30) bob_seat ∷ []) house

commit_runs :
    commit_in_database database (action_of "a1") 150 house
    ≡ ok (bob_acts, action_ack (action_of "a1") "ack-1" true)
unfolding commit_in_database ◌===◌
commit_runs = refl

commit_fresh_runs :
    commit_unless_done database none (action_of "a1") 150 house
    ≡ ok (bob_acts, action_ack (action_of "a1") "ack-1" true)
unfolding commit_unless_done ◌===◌
commit_fresh_runs = refl

other_is_new : find_table_operation database "a2" bob_acts ≡ none
unfolding find_table_operation ◌===◌
other_is_new = refl

commit_in_database-stale_example :
    commit_in_database database (action_of "a2") 160 bob_acts ≡ err (thrown "STALE_VERSION")
commit_in_database-stale_example =
    commit_in_database-stale database list_laws (action_of "a1") (action_of "a2") 150 160 house
      {r = (bob_acts, action_ack (action_of "a1") "ack-1" true)} commit_fresh_runs (omega arith)
      refl refl refl other_is_new

commit_unless_done-IsNumbered_example : IsNumbered database list_laws "h1" 2 bob_acts.events
commit_unless_done-IsNumbered_example =
    commit_unless_done-IsNumbered database list_laws (action_of "a1") 150 0 house
      {r = (bob_acts, action_ack (action_of "a1") "ack-1" true)} commit_fresh_runs refl
