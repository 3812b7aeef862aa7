-- ===== src/Store/Game/Stacks.antt =====
-- packages/db/src/game-server.ts: the stacks at a table against its account in the ledger.
use porker_monorepo.Base.{
  ===_ne, >>=-eq-ok, Bool-cases, Option, String, [], ap, arith, false, if◌then◌else◌, inl, inr,
  none, not, ok, ok-injective, refl, some, subst, sym, template, template-same, ◌===◌, ◌>>=◌, ◌∙◌,
  ◌∷◌, ◌≡◌,
}
use porker_monorepo.Ledger.{transfer_of}
use porker_monorepo.Ledger.Integers.{ltb_ℤ, minus_ℤ, pos, ℤ, ◌+ℤ◌}
use porker_monorepo.Ledger.Totals.{part}
use porker_monorepo.Ledger.Transfers.{moved}
use porker_monorepo.Store.{Database, post_in_database, require}
use porker_monorepo.Store.Game.{GameTables, Room, Seat, TableSeatRecord, last, or_not_found}
use porker_monorepo.Store.Game.Claims.{claim_unless_seated-parts}
use porker_monorepo.Store.Game.Releases.{cash_out}
use porker_monorepo.Store.Game.SeatSums.{
  into_table, is_of_user, moved_zero, points-ne-table, spent, stacks_of, stacks_of-create,
}
use porker_monorepo.Store.Game.Seats.{
  ClaimSeatInput, ReleaseSeatInput, claim_in_database, claim_unless_seated, claimed_seat,
  is_held_by, is_in_room, points_account, table_account,
}
use porker_monorepo.Store.Rows.{StoreLaws, post_in_database-moved}

module _ {L : Type 0} {T : Type 0 → Type 0} {J : Type 0} (d : Database L T) (laws : StoreLaws d)
    (leave_ack : String → ℤ → J) where
  abbrev pub stacks_at : String → GameTables L T J → ℤ
  stacks_at room s = stacks_of (is_in_room room) (laws.tables.rows s.seats)

  abbrev pub table_funds : String → GameTables L T J → ℤ
  table_funds room s = d.ledger.account_sum (table_account room) s.ledger

  abbrev pub MovesAt : GameTables L T J → GameTables L T J → String → Type 0
  MovesAt s t room = table_funds room t +ℤ stacks_at room s ≡ table_funds room s +ℤ stacks_at room t

  abbrev pub held_by : String → GameTables L T J → ℤ
  held_by user s = stacks_of (is_of_user user) (laws.tables.rows s.seats)

  abbrev pub points_of : String → GameTables L T J → ℤ
  points_of user s = d.ledger.account_sum (points_account user) s.ledger

  abbrev pub Worth : GameTables L T J → GameTables L T J → String → Type 0
  Worth s t user = points_of user t +ℤ held_by user t ≡ points_of user s +ℤ held_by user s

  -- The account of every table changes by as much as the stacks at it, and what every user has on his
  -- points account and on his seats stays the same in all.
  pub record MovesWithStacks (s t : GameTables L T J) : Type 0 where
    pub each : (room : String) → MovesAt s t room
    pub worth : (user : String) → Worth s t user

  moved-claim :
      (input : ClaimSeatInput) (room : String)
      → moved
          (points_account input.user_id)
          (table_account input.room_id)
          input.buy_in
          (table_account room)
        ≡ pos 0 +ℤ part (input.room_id === room) input.buy_in
  moved-claim input room =
      let away : (points_account input.user_id === table_account room) ≡ false =
        ===_ne (points_account input.user_id) (table_account room)
          (points-ne-table input.user_id room) in
      rw (away, template-same "table:" input.room_id room) refl

  pub moved-release :
      (input : ReleaseSeatInput) (stack : ℤ) (room : String)
      → moved
          (table_account input.room_id)
          (points_account input.user_id)
          stack
          (table_account room)
        ≡ part (input.room_id === room) (minus_ℤ stack) +ℤ pos 0
  moved-release input stack room =
      let away : (points_account input.user_id === table_account room) ≡ false =
        ===_ne (points_account input.user_id) (table_account room)
          (points-ne-table input.user_id room) in
      rw (away, template-same "table:" input.room_id room) refl

  claim-points :
      (input : ClaimSeatInput) (user : String)
      → moved
          (points_account input.user_id)
          (table_account input.room_id)
          input.buy_in
          (points_account user)
        ≡ part (input.user_id === user) (minus_ℤ input.buy_in) +ℤ pos 0
  claim-points input user =
      let away : (table_account input.room_id === points_account user) ≡ false =
        ===_ne (table_account input.room_id) (points_account user)
          (λ e. points-ne-table user input.room_id (sym e)) in
      rw (away, template-same "points:" input.user_id user) refl

  pub release-points :
      (input : ReleaseSeatInput) (stack : ℤ) (user : String)
      → moved
          (table_account input.room_id)
          (points_account input.user_id)
          stack
          (points_account user)
        ≡ pos 0 +ℤ part (input.user_id === user) stack
  release-points input stack user =
      let away : (table_account input.room_id === points_account user) ≡ false =
        ===_ne (table_account input.room_id) (points_account user)
          (λ e. points-ne-table user input.room_id (sym e)) in
      rw (away, template-same "points:" input.user_id user) refl

  claim_unless_seated-Worth :
      (found : Option Seat) (input : ClaimSeatInput) (reference seat_id : String) (room : Room)
      (s : GameTables L T J) {r : GameTables L T J × TableSeatRecord}
      → d.ledger.find_by_reference reference s.ledger ≡ none
      → claim_unless_seated d leave_ack found input reference seat_id room s ≡ ok r
      → (u : String) → Worth s (r.0) u
  unfolding claim_unless_seated
  claim_unless_seated-Worth (some existing) input reference seat_id room s {r} fresh h u =
      subst (λ (x : GameTables L T J × TableSeatRecord). Worth s (x.0) u) (ok-injective h) refl
  claim_unless_seated-Worth none input reference seat_id room s {r} fresh h u =
      let (number, posted, _, _, p, same) =
        claim_unless_seated-parts d leave_ack input reference seat_id room s {r = r} h in
      let seat = claimed_seat input seat_id number in
      let chairs = laws.tables.rows s.seats in
      subst (λ (x : GameTables L T J × TableSeatRecord). Worth s (x.0) u) same
        (ap (λ x. x +ℤ stacks_of (is_of_user u) (laws.tables.rows (d.tables.create seat s.seats)))
            (post_in_database-moved d laws reference (points_account input.user_id)
                (table_account input.room_id) input.buy_in (some (points_account input.user_id))
                s.ledger {r = posted} fresh p (points_account u)
              ∙ ap (λ x. points_of u s +ℤ x) (claim-points input u))
          ∙ ap
              (λ x.
                points_of u s +ℤ (part (input.user_id === u) (minus_ℤ input.buy_in) +ℤ pos 0) +ℤ x)
              (ap (stacks_of (is_of_user u)) (laws.tables.create_rows seat s.seats)
                ∙ stacks_of-create (is_of_user u) chairs seat)
          ∙ spent (input.user_id === u) (points_of u s) (stacks_of (is_of_user u) chairs)
              input.buy_in)

  claim_unless_seated-moves :
      (found : Option Seat) (input : ClaimSeatInput) (reference seat_id : String) (room : Room)
      (s : GameTables L T J) {r : GameTables L T J × TableSeatRecord}
      → d.ledger.find_by_reference reference s.ledger ≡ none
      → claim_unless_seated d leave_ack found input reference seat_id room s ≡ ok r
      → (q : String) → MovesAt s (r.0) q
  unfolding claim_unless_seated
  claim_unless_seated-moves (some existing) input reference seat_id room s {r} fresh h q =
      subst
        (λ (x : GameTables L T J × TableSeatRecord).
          table_funds q (x.0) +ℤ stacks_at q s ≡ table_funds q s +ℤ stacks_at q (x.0))
        (ok-injective h) refl
  claim_unless_seated-moves none input reference seat_id room s {r} fresh h q =
      let (number, posted, _, _, p, same) =
        claim_unless_seated-parts d leave_ack input reference seat_id room s {r = r} h in
      let seat = claimed_seat input seat_id number in
      let chairs = laws.tables.rows s.seats in
      subst
        (λ (x : GameTables L T J × TableSeatRecord).
          table_funds q (x.0) +ℤ stacks_at q s ≡ table_funds q s +ℤ stacks_at q (x.0))
        same
        (ap (λ x. x +ℤ stacks_of (is_in_room q) chairs)
            (post_in_database-moved d laws reference (points_account input.user_id)
                (table_account input.room_id) input.buy_in (some (points_account input.user_id))
                s.ledger {r = posted} fresh p (table_account q)
              ∙ ap (λ x. table_funds q s +ℤ x) (moved-claim input q))
          ∙ into_table (input.room_id === q) (table_funds q s) (stacks_of (is_in_room q) chairs)
              input.buy_in
          ∙ ap (λ x. table_funds q s +ℤ x)
              (sym (
                ap (stacks_of (is_in_room q)) (laws.tables.create_rows seat s.seats)
                ∙ stacks_of-create (is_in_room q) chairs seat)))

  -- If a request to sit down is granted, and its reference is new to the ledger, then every table's
  -- account changes by as much as the stacks at it, and every user has as much as before on his points
  -- account and on his seats together: the buy-in comes from the points of the player who sits down.
  pub claim_in_database-MovesWithStacks :
      (input : ClaimSeatInput) (reference seat_id : String) (s : GameTables L T J)
      {r : GameTables L T J × TableSeatRecord}
      → d.ledger.find_by_reference reference s.ledger ≡ none
      → claim_in_database d leave_ack input reference seat_id s ≡ ok r
      → MovesWithStacks s (r.0)
  unfolding claim_in_database
  claim_in_database-MovesWithStacks input reference seat_id s {r} fresh h =
      let (room, _, h1) =
        >>=-eq-ok (or_not_found (d.tables.find_first (λ q. q.id === input.room_id) s.rooms)) _ h in
      let (_, _, h2) =
        >>=-eq-ok (require (not (room.status === "DRAINING")) "ROOM_DRAINING") _ h1 in
      record {
        each =
            claim_unless_seated-moves
              (d.tables.find_first (is_held_by input.room_id input.user_id) s.seats) input reference
              seat_id room s {r = r} fresh h2;
        worth =
            claim_unless_seated-Worth
              (d.tables.find_first (is_held_by input.room_id input.user_id) s.seats) input reference
              seat_id room s {r = r} fresh h2;
      }

  pub cash_out-moves :
      (input : ReleaseSeatInput) (seat : Seat) (ledger : L) {after : L}
      → d.ledger.find_by_reference (template ("cash-out:" ∷ seat.id ∷ [])) ledger ≡ none
      → ltb_ℤ seat.stack (pos 0) ≡ false
      → cash_out d leave_ack input seat ledger ≡ ok after
      → (a : String)
      → d.ledger.account_sum a after
        ≡ d.ledger.account_sum a ledger
          +ℤ moved (table_account input.room_id) (points_account input.user_id) seat.stack a
  unfolding cash_out
  cash_out-moves input seat ledger {after} fresh natural h a =
      elim (Bool-cases (ltb_ℤ (pos 0) seat.stack)) [
        | inl e ↦
            let pay =
              post_in_database d
                (transfer_of d.ledger d.digest (template ("cash-out:" ∷ seat.id ∷ []))
                  (table_account input.room_id) (points_account input.user_id) seat.stack)
                (some (table_account input.room_id)) ledger in
            let h' : (pay >>= λ posted. ok (posted.0)) ≡ ok after =
              ap (λ b. if b then (pay >>= λ posted. ok (posted.0)) else ok ledger) (sym e) ∙ h in
            let (posted, p, last) = >>=-eq-ok pay _ h' in
            ap (λ x. d.ledger.account_sum a x) (sym (ok-injective last))
            ∙ post_in_database-moved d laws (template ("cash-out:" ∷ seat.id ∷ []))
                (table_account input.room_id) (points_account input.user_id) seat.stack
                (some (table_account input.room_id)) ledger {r = posted} fresh p a
        | inr e ↦
            let pay =
              post_in_database d
                (transfer_of d.ledger d.digest (template ("cash-out:" ∷ seat.id ∷ []))
                  (table_account input.room_id) (points_account input.user_id) seat.stack)
                (some (table_account input.room_id)) ledger in
            let same : ledger ≡ after =
              ok-injective (
                ap (λ b. if b then (pay >>= λ posted. ok (posted.0)) else ok ledger) (sym e) ∙ h) in
            let empty : seat.stack ≡ pos 0 = zero_stack seat.stack e natural in
            ap (λ x. d.ledger.account_sum a x) (sym same)
            ∙ rw empty (
                moved_zero (table_account input.room_id === a) (points_account input.user_id === a)
                  (d.ledger.account_sum a ledger))
      ]
    where
      zero_stack : (a : ℤ) → ltb_ℤ (pos 0) a ≡ false → ltb_ℤ a (pos 0) ≡ false → a ≡ pos 0
      zero_stack a e f = ground arith
