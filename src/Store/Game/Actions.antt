-- ===== src/Store/Game/Actions.antt =====
-- packages/db/src/game-server.ts: an action is committed once, and once for each version.
use porker_monorepo.Base.{
  ===_refl, >>=-eq-ok, Bool, Bool-cases, List, Option, [], ap, arith, err, false, filter, find,
  guard-eq-ok, inl, inr, ltb, none, ok, ok-injective, refl, some, subst, sym, true, ℕ, ◌++◌, ◌<◌,
  ◌===◌, ◌>>=◌, ◌∙◌, ◌∷◌, ◌≡◌, ◌≤◌,
}
use porker_monorepo.Store.{Database, require, thrown}
use porker_monorepo.Store.Game.{
  DurableActionAck, GameSnapshot, GameTables, Seat, TableOperation, last_by, or_not_found,
}
use porker_monorepo.Store.Game.Commits.{
  CommitActionInput, action_ack, commit_in_database, commit_unless_done, is_expected,
  is_same_action, last_sequence, latest_version, operation_row, store_events, with_deadline,
}
use porker_monorepo.Store.Game.Hands.{
  find_table_operation, is_snapshot_of, snapshot_row, store_stacks,
}
use porker_monorepo.Store.Game.Seats.{is_operation}
use porker_monorepo.Store.Rows.{TableLaws, find-create_self}

module _ {ℓ} {R : Type ℓ} where
  pub filter-create :
      (p : R → Bool) (xs : List R) (x : R)
      → p x ≡ true
      → filter p (xs ++ x ∷ []) ≡ filter p xs ++ x ∷ []
  filter-create p [] x h = rw h refl
  filter-create p (y ∷ ys) x h = elim (Bool-cases (p y)) [
    | inl e ↦ rw e (ap (λ r. y ∷ r) (filter-create p ys x h))
    | inr e ↦ rw e (filter-create p ys x h)
  ]

  -- The largest value is at least that of the row that was added.
  last_by-create :
      (key : R → ℕ) (xs : List R) (x : R)
      → (best : R) × (last_by key (xs ++ x ∷ []) ≡ some best) × (key x ≤ key best)
  last_by-create key [] x = (x, refl, omega arith)
  last_by-create key (y ∷ ys) x =
      let (best, found, least) = last_by-create key ys x in
      elim (Bool-cases (ltb (key best) (key y))) [
        | inl e ↦ (y, rw (found, e) refl, ground (arith, e))
        | inr e ↦ (best, rw (found, e) refl, least)
      ]

module _ {L : Type 0} {T : Type 0 → Type 0} {J : Type 0} (d : Database L T)
    (tables : TableLaws d.tables) where
  own_operation : (input : CommitActionInput J) → is_same_action input (operation_row input) ≡ true
  own_operation input =
      let type_is : ("ACTION" === "ACTION") ≡ true = ===_refl "ACTION" in
      rw
        (
          type_is,
          ===_refl input.hand_id,
          ===_refl input.actor_user_id,
          ===_refl input.room_id,
          ===_refl input.payload_hash,
        )
        refl

  abbrev pub after_commit : CommitActionInput J → ℕ → T Seat → GameTables L T J → GameTables L T J
  after_commit input now stored s = record s {
    operations = d.tables.create (operation_row input) s.operations;
    events = store_events d input 0 (last_sequence d input.hand_id s.events) input.events s.events;
    snapshots =
        d.tables.create (snapshot_row input.room_id input.hand_id input.new_version input.state)
          s.snapshots;
    seats = stored;
    hands =
        d.tables.update (λ h. h.id === input.hand_id) (with_deadline input.action_deadline_at now)
          s.hands;
  }

  pub commit_unless_done-parts :
      (input : CommitActionInput J) (now : ℕ) (s : GameTables L T J)
      {r : GameTables L T J × DurableActionAck J}
      → commit_unless_done d none input now s ≡ ok r
      → (stored : T Seat) × (store_stacks d input.room_id input.seat_stacks s.seats ≡ ok stored)
        × ((after_commit input now stored s, action_ack input input.ack true) ≡ r)
  unfolding commit_unless_done
  commit_unless_done-parts input now s {r} h =
      let (_, _, h1) =
        >>=-eq-ok
          (require
            (is_expected d input.expected_version
              (latest_version d input.room_id input.hand_id s.snapshots))
            "STALE_VERSION")
          _ h in
      let (stored, kept, h2) =
        >>=-eq-ok (store_stacks d input.room_id input.seat_stacks s.seats) _ h1 in
      let (_, _, h3) =
        >>=-eq-ok (or_not_found (d.tables.find_first (λ h. h.id === input.hand_id) s.hands)) _ h2 in
      (stored, kept, ok-injective h3)

  found-again :
      (input : CommitActionInput J) (now : ℕ) (s : GameTables L T J) (o : TableOperation J)
      → is_same_action input o ≡ true
      → commit_unless_done d (some o) input now s ≡ ok (s, action_ack input o.ack false)
  unfolding commit_unless_done
  found-again input now s o h =
      ap (λ b. require b "ACTION_ID_CONFLICT" >>= λ _. ok (s, action_ack input o.ack false)) h

  abbrev repeated : DurableActionAck J → DurableActionAck J
  repeated a = record a { committed = false }

  pub after_commit-found :
      (input : CommitActionInput J) (now : ℕ) (stored : T Seat) (s : GameTables L T J)
      → find_table_operation d input.action_id s ≡ none
      → find_table_operation d input.action_id (after_commit input now stored s)
        ≡ some (operation_row input)
  unfolding find_table_operation
  after_commit-found input now stored s found =
      let none_yet : find (is_operation input.action_id) (tables.rows s.operations) ≡ none =
        sym (tables.find_rows (is_operation input.action_id) s.operations) ∙ found in
      tables.find_rows (is_operation input.action_id)
        (d.tables.create (operation_row input) s.operations)
      ∙ ap (find (is_operation input.action_id))
          (tables.create_rows (operation_row input) s.operations)
      ∙ find-create_self (is_operation input.action_id) (tables.rows s.operations)
          (operation_row input) none_yet (===_refl input.action_id)

  once_found :
      (found : Option (TableOperation J)) (input : CommitActionInput J) (now later : ℕ)
      (s : GameTables L T J) {r : GameTables L T J × DurableActionAck J}
      → find_table_operation d input.action_id s ≡ found
      → commit_unless_done d found input now s ≡ ok r
      → commit_in_database d input later (r.0) ≡ ok (r.0, repeated (r.1))
  unfolding commit_in_database commit_unless_done find_table_operation
  once_found (some o) input now later s {r} found h =
      let (_, checked, same) =
        >>=-eq-ok (require (is_same_action input o) "ACTION_ID_CONFLICT") _ h in
      subst
        (λ (x : GameTables L T J × DurableActionAck J).
          commit_in_database d input later (x.0) ≡ ok (x.0, repeated (x.1)))
        (ok-injective same)
        (ap (λ c. commit_unless_done d c input later s) found
          ∙ found-again input later s o (guard-eq-ok _ _ checked))
  once_found none input now later s {r} found h =
      let (stored, _, same) = commit_unless_done-parts input now s {r = r} h in
      let after = after_commit input now stored s in
      let there = after_commit-found input now stored s found in
      subst
        (λ (x : GameTables L T J × DurableActionAck J).
          commit_in_database d input later (x.0) ≡ ok (x.0, repeated (x.1)))
        same
        (ap (λ c. commit_unless_done d c input later after) there
          ∙ found-again input later after (operation_row input) (own_operation input))

  -- A commit that is repeated changes nothing: it answers with the same acknowledgement, and says
  -- that it did not commit.
  pub commit_in_database-once :
      (input : CommitActionInput J) (now later : ℕ) (s : GameTables L T J)
      {r : GameTables L T J × DurableActionAck J}
      → commit_in_database d input now s ≡ ok r
      → commit_in_database d input later (r.0) ≡ ok (r.0, record (r.1) { committed = false })
  unfolding commit_in_database
  commit_in_database-once input now later s {r} h =
      once_found (find_table_operation d input.action_id s) input now later s {r = r} refl h

  stale_after :
      (input other : CommitActionInput J) (now : ℕ) (stored : T Seat) (s : GameTables L T J)
      → input.expected_version < input.new_version
      → other.room_id ≡ input.room_id
      → other.hand_id ≡ input.hand_id
      → other.expected_version ≡ input.expected_version
      → is_expected d other.expected_version
          (latest_version d other.room_id other.hand_id (after_commit input now stored s).snapshots)
        ≡ false
  stale_after input other now stored s newer room hand version =
      let row = snapshot_row input.room_id input.hand_id input.new_version input.state in
      let rows = tables.rows s.snapshots in
      let mine = is_snapshot_of {J = J} input.room_id input.hand_id in
      let own : mine row ≡ true = ground (arith, ===_refl input.room_id, ===_refl input.hand_id) in
      let key = λ (r : GameSnapshot J). r.version in
      let (best, found, least) = last_by-create key (filter mine rows) row in
      let all : latest_version d input.room_id input.hand_id
            (after_commit input now stored s).snapshots
          ≡ some best =
        ap (last_by key) (
          tables.many_rows mine (d.tables.create row s.snapshots)
          ∙ ap (filter mine) (tables.create_rows row s.snapshots)
          ∙ filter-create mine rows row own)
        ∙ found in
      rw (room, hand, version)
        (ap (is_expected d input.expected_version) all ∙ ground (arith, newer, least))

  refused :
      (other : CommitActionInput J) (later : ℕ) (t : GameTables L T J)
      → is_expected d other.expected_version
          (latest_version d other.room_id other.hand_id t.snapshots)
        ≡ false
      → commit_unless_done d none other later t ≡ err (thrown "STALE_VERSION")
  unfolding commit_unless_done
  refused other later t stale = rw stale refl

  -- At most one action is committed for a version of a hand: after a commit that moved the version
  -- on, any other action that expects the version before it is refused as stale.
  pub commit_in_database-stale :
      (input other : CommitActionInput J) (now later : ℕ) (s : GameTables L T J)
      {r : GameTables L T J × DurableActionAck J}
      → commit_unless_done d none input now s ≡ ok r
      → input.expected_version < input.new_version
      → other.room_id ≡ input.room_id
      → other.hand_id ≡ input.hand_id
      → other.expected_version ≡ input.expected_version
      → find_table_operation d other.action_id (r.0) ≡ none
      → commit_in_database d other later (r.0) ≡ err (thrown "STALE_VERSION")
  unfolding commit_in_database
  commit_in_database-stale input other now later s {r} h newer room hand version fresh =
      let (stored, _, same) = commit_unless_done-parts input now s {r = r} h in
      let stale : is_expected d other.expected_version
            (latest_version d other.room_id other.hand_id (r.0).snapshots)
          ≡ false =
        subst
          (λ (x : GameTables L T J × DurableActionAck J).
            is_expected d other.expected_version
              (latest_version d other.room_id other.hand_id (x.0).snapshots)
            ≡ false)
          same (stale_after input other now stored s newer room hand version) in
      ap (λ c. commit_unless_done d c other later (r.0)) fresh ∙ refused other later (r.0) stale
