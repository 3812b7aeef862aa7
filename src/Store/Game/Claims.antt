-- ===== src/Store/Game/Claims.antt =====
-- packages/db/src/game-server.ts: which seat a player gets.
use porker_monorepo.Base.{
  ==_iff, >>=-eq-ok, Bool, Bool-cases, List, Option, String, any, ap, arith, false, find,
  guard-eq-ok, inl, inr, none, not, ok, ok-injective, refl, some, subst, suc, sym, true, zero, ℕ,
  ◌+◌, ◌<◌, ◌===◌, ◌==◌, ◌||◌, ◌∙◌, ◌≡◌, ◌≤◌,
}
use porker_monorepo.Ledger.{PostTransactionInput, PostedTransaction, transfer_of}
use porker_monorepo.Ledger.Integers.{ltb_ℤ, ℤ}
use porker_monorepo.Store.{Database, post_in_database, require}
use porker_monorepo.Store.Game.{GameTables, Room, TableSeatRecord, or_not_found, or_thrown}
use porker_monorepo.Store.Game.Seats.{
  ClaimSeatInput, claim_in_database, claim_unless_seated, claimed_seat, display_name_of, first_free,
  indices_from, is_held_by, occupied_seats, points_account, seat_record, table_account,
}

abbrev pub is_taken : List ℕ → ℕ → Bool
is_taken occupied candidate = any (λ n. n == candidate) occupied

first_free_from :
    (occupied : List ℕ) (start n : ℕ) {k : ℕ}
    → find (λ c. not (is_taken occupied c)) (indices_from start n) ≡ some k
    → (start ≤ k)
      × (k < start + n)
      × (is_taken occupied k ≡ false)
      × ((j : ℕ) → start ≤ j → j < k → is_taken occupied j ≡ true)
first_free_from occupied start zero h = cc
first_free_from occupied start (suc n) {k} h = elim (Bool-cases (is_taken occupied start)) [
  | inl e ↦
      let rest : find (λ c. not (is_taken occupied c)) (indices_from (start + 1) n) ≡ some k =
        ground (arith, e, h) in
      let (low, high, free, taken) = first_free_from occupied (start + 1) n {k = k} rest in
      (
        omega arith,
        omega arith,
        free,
        λ j from below. elim (Bool-cases (j == start)) [
          | inl same ↦ subst (λ i. is_taken occupied i ≡ true) (sym ((==_iff j start).0 same)) e
          | inr other ↦ taken j (ground (arith, other)) below
        ],
      )
  | inr e ↦
      let first : start ≡ k = ground (arith, e, h) in
      (
        omega arith,
        omega arith,
        subst (λ i. is_taken occupied i ≡ false) first e,
        λ j from below. absurd (omega arith),
      )
]

-- The first free number is the lowest that is not taken.
pub first_free-lowest :
    (n : ℕ) (occupied : List ℕ) {k : ℕ}
    → first_free n occupied ≡ some k
    → (k < n) × (is_taken occupied k ≡ false) × ((j : ℕ) → j < k → is_taken occupied j ≡ true)
unfolding first_free
first_free-lowest n occupied {k} h =
    let (_, high, free, taken) = first_free_from occupied 0 n {k = k} h in
    (omega (arith, high), free, λ j below. taken j (omega arith) below)

-- What a player who sits down gets.
pub record Seated (room : Room) (occupied : List ℕ) (buy_in : ℤ) (seat : TableSeatRecord)
    : Type 0 where
  pub in_range : seat.seat_number < room.seat_count
  pub was_free : is_taken occupied seat.seat_number ≡ false
  pub lowest : (j : ℕ) → j < seat.seat_number → is_taken occupied j ≡ true
  pub paid_in : seat.stack ≡ buy_in
  pub not_below : ltb_ℤ buy_in room.min_buy_in ≡ false
  pub not_above : ltb_ℤ room.max_buy_in buy_in ≡ false

module _ {L : Type 0} {T : Type 0 → Type 0} {J : Type 0} (d : Database L T)
    (leave_ack : String → ℤ → J) where
  abbrev pub buy_in_of : ClaimSeatInput → String → PostTransactionInput
  buy_in_of input reference =
      transfer_of d.ledger d.digest reference (points_account input.user_id)
        (table_account input.room_id) input.buy_in

  pub claim_unless_seated-parts :
      (input : ClaimSeatInput) (reference seat_id : String) (room : Room) (s : GameTables L T J)
      {r : GameTables L T J × TableSeatRecord}
      → claim_unless_seated d leave_ack none input reference seat_id room s ≡ ok r
      → (number : ℕ) × (posted : L × PostedTransaction) × (not
            (ltb_ℤ input.buy_in room.min_buy_in || ltb_ℤ room.max_buy_in input.buy_in)
          ≡ true)
        × (first_free room.seat_count (occupied_seats d leave_ack input.room_id s) ≡ some number)
        × (post_in_database d
              (buy_in_of input reference)
              (some (points_account input.user_id))
              s.ledger
            ≡ ok posted)
        × ((
          record s {
            ledger = posted.0;
            seats = d.tables.create (claimed_seat input seat_id number) s.seats;
          },
          seat_record input.user_id
              (display_name_of d leave_ack input.user_id s)
              (claimed_seat input seat_id number),
        )
            ≡ r)
  unfolding claim_unless_seated
  claim_unless_seated-parts input reference seat_id room s {r} h =
      let (_, g, h1) =
        >>=-eq-ok
          (require (not (ltb_ℤ input.buy_in room.min_buy_in || ltb_ℤ room.max_buy_in input.buy_in))
            "INVALID_SEAT_OR_BUY_IN")
          _ h in
      let (number, free, h2) =
        >>=-eq-ok
          (or_thrown (first_free room.seat_count (occupied_seats d leave_ack input.room_id s))
            "ROOM_FULL")
          _ h1 in
      let (posted, p, h3) =
        >>=-eq-ok
          (post_in_database d (buy_in_of input reference) (some (points_account input.user_id))
            s.ledger)
          _ h2 in
      (number, posted, guard-eq-ok _ _ g, thrown-some _ free, p, ok-injective h3)
    where
      thrown-some : (o : Option ℕ) {n : ℕ} → or_thrown o "ROOM_FULL" ≡ ok n → o ≡ some n
      thrown-some none e = cc
      thrown-some (some m) e = ap some (ok-injective e)

  -- A player who sits down at a room that is not draining gets the lowest free seat, within the
  -- number of seats, for a buy-in within the limits of the room, which is the stack.
  pub claim_in_database-Seated :
      (input : ClaimSeatInput) (reference seat_id : String) (s : GameTables L T J)
      {r : GameTables L T J × TableSeatRecord}
      → d.tables.find_first (is_held_by input.room_id input.user_id) s.seats ≡ none
      → claim_in_database d leave_ack input reference seat_id s ≡ ok r
      → (room : Room) × (d.tables.find_first (λ q. q.id === input.room_id) s.rooms ≡ some room)
        × ((room.status === "DRAINING") ≡ false)
        × Seated room (occupied_seats d leave_ack input.room_id s) input.buy_in (r.1)
  unfolding claim_in_database
  claim_in_database-Seated input reference seat_id s {r} unseated h =
      let (room, there, h1) =
        >>=-eq-ok (or_not_found (d.tables.find_first (λ q. q.id === input.room_id) s.rooms)) _ h in
      let (_, g, h2) =
        >>=-eq-ok (require (not (room.status === "DRAINING")) "ROOM_DRAINING") _ h1 in
      let h3 : claim_unless_seated d leave_ack none input reference seat_id room s ≡ ok r =
        ap (λ o. claim_unless_seated d leave_ack o input reference seat_id room s) (sym unseated)
        ∙ h2 in
      let (number, posted, limits, free, _, same) =
        claim_unless_seated-parts input reference seat_id room s {r = r} h3 in
      let (high, was_free, taken) =
        first_free-lowest room.seat_count (occupied_seats d leave_ack input.room_id s) {k = number}
          free in
      (
        room,
        found-some _ there,
        ground (arith, guard-eq-ok _ _ g),
        subst
            (λ (x : GameTables L T J × TableSeatRecord).
              Seated room (occupied_seats d leave_ack input.room_id s) input.buy_in (x.1))
            same
            (record {
              in_range = high;
              was_free = was_free;
              lowest = taken;
              paid_in = refl;
              not_below = ground (arith, limits);
              not_above = ground (arith, limits);
            }),
      )
    where
      found-some : (o : Option Room) {q : Room} → or_not_found o ≡ ok q → o ≡ some q
      found-some none e = cc
      found-some (some p) e = ap some (ok-injective e)
