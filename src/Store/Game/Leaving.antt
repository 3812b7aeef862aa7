-- ===== src/Store/Game/Leaving.antt =====
-- packages/db/src/game-server.ts: leaving a table.
use porker_monorepo.Base.{
  ===_iff, >>=-eq-ok, All, All-find, Bool, Option, String, [], ap, arith, count_by, false, filter,
  find, find_passes, none, not, ok, ok-injective, refl, some, subst, sym, template, true, ◌===◌,
  ◌∙◌, ◌∷◌, ◌≡◌, ◌≤◌,
}
use porker_monorepo.Ledger.Integers.{ltb_ℤ, pos, ℤ, ◌+ℤ◌}
use porker_monorepo.Ledger.Totals.{part}
use porker_monorepo.Store.{Database, require}
use porker_monorepo.Store.Game.{GameTables, Seat, TableOperation, is_text, or_thrown}
use porker_monorepo.Store.Game.Releases.{
  cash_out, leave_operation, release_in_database, release_unless_done,
}
use porker_monorepo.Store.Game.SeatSums.{
  has_seat_id, is_of_user, is_text-same, out_of_table, refunded, stacks_of, stacks_of-delete,
}
use porker_monorepo.Store.Game.Seats.{
  ReleaseSeatInput, is_held_by, is_in_room, is_operation, is_same_leave, points_account,
  table_account,
}
use porker_monorepo.Store.Game.Stacks.{
  MovesAt, MovesWithStacks, Worth, cash_out-moves, moved-release, points_of, release-points,
  stacks_at, table_funds,
}
use porker_monorepo.Store.Rows.{StoreLaws}

module _ {L : Type 0} {T : Type 0 → Type 0} {J : Type 0} (d : Database L T) (laws : StoreLaws d)
    (leave_ack : String → ℤ → J) where
  -- The keys of the seats are unique, their stacks natural, and no seat was cashed out before.
  pub record SeatsSound (s : GameTables L T J) : Type 0 where
    pub unique : (id : String) → count_by (has_seat_id id) (laws.tables.rows s.seats) ≤ 1
    pub natural : All (λ seat. ltb_ℤ seat.stack (pos 0) ≡ false) (laws.tables.rows s.seats)
    pub not_cashed :
        (room user : String) {seat : Seat}
        → find (is_held_by room user) (laws.tables.rows s.seats) ≡ some seat
        → d.ledger.find_by_reference (template ("cash-out:" ∷ seat.id ∷ [])) s.ledger ≡ none

  abbrev pub after_release :
      ReleaseSeatInput → Seat → L → GameTables L T J → GameTables L T J × J × Bool
  after_release input seat ledger s = (
    record s {
      ledger = ledger;
      operations = d.tables.create (leave_operation d leave_ack input seat.stack) s.operations;
      seats = d.tables.delete (λ r. r.id === seat.id) s.seats;
    },
    leave_ack input.user_id seat.stack,
    true,
  )

  pub release_unless_done-parts :
      (input : ReleaseSeatInput) (s : GameTables L T J) {r : GameTables L T J × J × Bool}
      → release_unless_done d leave_ack none input s ≡ ok r
      → (seat : Seat) × (ledger : L) × (find
            (is_held_by input.room_id input.user_id)
            (laws.tables.rows s.seats)
          ≡ some seat)
        × (cash_out d leave_ack input seat s.ledger ≡ ok ledger)
        × (after_release input seat ledger s ≡ r)
  unfolding release_unless_done
  release_unless_done-parts input s {r} h =
      let (seat, there, h1) =
        >>=-eq-ok
          (or_thrown (d.tables.find_first (is_held_by input.room_id input.user_id) s.seats)
            "NOT_SEAT_OWNER")
          _ h in
      let (ledger, out, h2) = >>=-eq-ok (cash_out d leave_ack input seat s.ledger) _ h1 in
      (
        seat,
        ledger,
        sym (laws.tables.find_rows (is_held_by input.room_id input.user_id) s.seats)
            ∙ thrown-some _ there,
        out,
        ok-injective h2,
      )
    where
      thrown-some : (o : Option Seat) {q : Seat} → or_thrown o "NOT_SEAT_OWNER" ≡ ok q → o ≡ some q
      thrown-some none e = cc
      thrown-some (some p) e = ap some (ok-injective e)

  release_unless_done-moves :
      (found : Option (TableOperation J)) (input : ReleaseSeatInput) (s : GameTables L T J)
      {r : GameTables L T J × J × Bool}
      → SeatsSound s
      → release_unless_done d leave_ack found input s ≡ ok r
      → (q : String) → MovesAt d laws leave_ack s (r.0) q
  unfolding release_unless_done
  release_unless_done-moves (some operation) input s {r} k h q =
      let (_, _, same) =
        >>=-eq-ok (require (is_same_leave input operation) "ACTION_ID_CONFLICT") _ h in
      subst
        (λ (x : GameTables L T J × J × Bool).
          table_funds d laws leave_ack q (x.0) +ℤ stacks_at d laws leave_ack q s
          ≡ table_funds d laws leave_ack q s +ℤ stacks_at d laws leave_ack q (x.0))
        (ok-injective same) refl
  release_unless_done-moves none input s {r} k h q =
      let (seat, ledger, there, out, same) = release_unless_done-parts input s {r = r} h in
      let chairs = laws.tables.rows s.seats in
      let p = is_held_by input.room_id input.user_id in
      let left = filter (λ c. not (has_seat_id seat.id c)) chairs in
      let own : (seat.room_id === input.room_id) ≡ true =
        ground (arith, find_passes p chairs there) in
      let room : seat.room_id ≡ input.room_id = (===_iff seat.room_id input.room_id).0 own in
      let natural = All-find (λ c. ltb_ℤ c.stack (pos 0) ≡ false) p chairs k.natural there in
      subst
        (λ (x : GameTables L T J × J × Bool).
          table_funds d laws leave_ack q (x.0) +ℤ stacks_at d laws leave_ack q s
          ≡ table_funds d laws leave_ack q s +ℤ stacks_at d laws leave_ack q (x.0))
        same
        (ap (λ x. x +ℤ stacks_of (is_in_room q) chairs)
            (cash_out-moves d laws leave_ack input seat s.ledger {after = ledger}
                (k.not_cashed input.room_id input.user_id {seat = seat} there) natural out
                (table_account q)
              ∙ ap (λ x. table_funds d laws leave_ack q s +ℤ x)
                  (moved-release d laws leave_ack input seat.stack q))
          ∙ out_of_table (input.room_id === q) (table_funds d laws leave_ack q s)
              (stacks_of (is_in_room q) chairs) (stacks_of (is_in_room q) left) seat.stack
              (subst
                (λ i.
                  part (i === q) seat.stack +ℤ stacks_of (is_in_room q) left
                  ≡ stacks_of (is_in_room q) chairs)
                room (stacks_of-delete (is_in_room q) p chairs {seat = seat} there k.unique))
          ∙ ap (λ x. table_funds d laws leave_ack q s +ℤ x)
              (sym (
                ap (stacks_of (is_in_room q))
                  (laws.tables.delete_rows (λ r. r.id === seat.id) s.seats))))

  release_unless_done-Worth :
      (found : Option (TableOperation J)) (input : ReleaseSeatInput) (s : GameTables L T J)
      {r : GameTables L T J × J × Bool}
      → SeatsSound s
      → release_unless_done d leave_ack found input s ≡ ok r
      → (u : String) → Worth d laws leave_ack s (r.0) u
  unfolding release_unless_done
  release_unless_done-Worth (some operation) input s {r} k h u =
      let (_, _, same) =
        >>=-eq-ok (require (is_same_leave input operation) "ACTION_ID_CONFLICT") _ h in
      subst (λ (x : GameTables L T J × J × Bool). Worth d laws leave_ack s (x.0) u)
        (ok-injective same) refl
  release_unless_done-Worth none input s {r} k h u =
      let (seat, ledger, there, out, same) = release_unless_done-parts input s {r = r} h in
      let chairs = laws.tables.rows s.seats in
      let p = is_held_by input.room_id input.user_id in
      let left = filter (λ c. not (has_seat_id seat.id c)) chairs in
      let own : is_text seat.user_id input.user_id ≡ true =
        ground (arith, find_passes p chairs there) in
      let natural = All-find (λ c. ltb_ℤ c.stack (pos 0) ≡ false) p chairs k.natural there in
      subst (λ (x : GameTables L T J × J × Bool). Worth d laws leave_ack s (x.0) u) same
        (ap
            (λ x.
              x
              +ℤ stacks_of (is_of_user u)
                  (laws.tables.rows (d.tables.delete (λ r. r.id === seat.id) s.seats)))
            (cash_out-moves d laws leave_ack input seat s.ledger {after = ledger}
                (k.not_cashed input.room_id input.user_id {seat = seat} there) natural out
                (points_account u)
              ∙ ap (λ x. points_of d laws leave_ack u s +ℤ x)
                  (release-points d laws leave_ack input seat.stack u))
          ∙ ap
              (λ x.
                points_of d laws leave_ack u s
                +ℤ (pos 0 +ℤ part (input.user_id === u) seat.stack)
                +ℤ x)
              (ap (stacks_of (is_of_user u))
                (laws.tables.delete_rows (λ r. r.id === seat.id) s.seats))
          ∙ refunded (points_of d laws leave_ack u s) (part (input.user_id === u) seat.stack)
              (stacks_of (is_of_user u) left) (stacks_of (is_of_user u) chairs)
              (subst
                (λ b.
                  part b seat.stack +ℤ stacks_of (is_of_user u) left
                  ≡ stacks_of (is_of_user u) chairs)
                (is_text-same seat.user_id input.user_id u own)
                (stacks_of-delete (is_of_user u) p chairs {seat = seat} there k.unique)))

  -- If a request to leave is granted, the ids of the seats differ, no stack is negative, and no seat
  -- was cashed out before, then every table's account changes by as much as the stacks at it, and
  -- every user has as much as before on his points account and on his seats together: the stack of
  -- the player who leaves goes to his own points.
  pub release_in_database-MovesWithStacks :
      (input : ReleaseSeatInput) (s : GameTables L T J) {r : GameTables L T J × J × Bool}
      → SeatsSound s
      → release_in_database d leave_ack input s ≡ ok r
      → MovesWithStacks d laws leave_ack s (r.0)
  unfolding release_in_database
  release_in_database-MovesWithStacks input s {r} k h = record {
    each =
        release_unless_done-moves (d.tables.find_first (is_operation input.action_id) s.operations)
          input s {r = r} k h;
    worth =
        release_unless_done-Worth (d.tables.find_first (is_operation input.action_id) s.operations)
          input s {r = r} k h;
  }
