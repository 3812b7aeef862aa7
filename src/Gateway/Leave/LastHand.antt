-- ===== src/Gateway/Leave/LastHand.antt =====
-- apps/poker-api/src/game/game.gateway.ts: when a player may leave a table.
use porker_monorepo.Base.{
  ===_iff, >>=-Yields, Bool-cases, List, Option, Option-cases, String, Yields, Yields-ok, [], ap,
  arith, false, filter, if-Yields, inl, inr, lookup, none, not, ok, refl, some, subst, true, ◌===◌,
  ◌∷◌, ◌≡◌, ◌⊎◌,
}
use porker_monorepo.Engine.Table.{TableState, is_complete}
use porker_monorepo.Gateway.{Effect, GatewayState, Reply, Stored, TableRuntime, failure, success}
use porker_monorepo.Gateway.Leave.{
  LeaveRequest, forget, in_progress, is_leave_replay, leave_room, leave_under_lock,
  leave_unless_done, leave_unless_playing,
}
use porker_monorepo.Gateway.Recovery.{
  Recovered, decrypted, fits_together, passes, ready, recover_cached, recover_result,
  recover_snapshot, recover_state, recovered,
}
use porker_monorepo.Gateway.Turns.{Surroundings, find_room}
use porker_monorepo.Store.{Database, FailureCode}
use porker_monorepo.Store.Game.{
  DurableHandEvent, DurableTableSnapshot, PublicRoomRecord, TableOperation,
}
use porker_monorepo.Store.Game.Hands.{
  find_table_operation, load_hand_events_after, load_latest_table_snapshot,
}

lookup_forgotten :
    {V : Type 0} (k : String) (m : List (String × V))
    → lookup k (filter (λ e. not (e.0 === k)) m) ≡ none
lookup_forgotten k [] = refl
lookup_forgotten k ((j, v) ∷ m) = elim (Bool-cases (j === k)) [
  | inl e ↦ rw e (lookup_forgotten k m)
  | inr e ↦ rw (e, e) (lookup_forgotten k m)
]

fits_together-status :
    (room : String) (snapshot : DurableTableSnapshot Stored)
    (events : List (DurableHandEvent Stored)) (state : TableState)
    → fits_together room snapshot events state ≡ true
    → is_complete state.phase ≡ true
    → (passes state ≡ true) × (snapshot.hand_status ≡ "COMPLETE")
unfolding fits_together
fits_together-status room snapshot events state h over =
    let status : (snapshot.hand_status === "COMPLETE") ≡ true = ground (arith, h, over) in
    (ground (arith, h), (===_iff snapshot.hand_status "COMPLETE").0 status)

module _ {L : Type 0} {T : Type 0 → Type 0} (d : Database L T)
    (decrypt : String → Option TableState) (hash_leave : LeaveRequest → String)
    (client_message : FailureCode → String) where
  -- What the database says of the last hand of a room: there is none, or it is over, by its row and by
  -- its state, which passes the check, or its snapshot cannot be used, so that the room is drained.
  pub data LastHand (room : String) (s : GatewayState L T) : Type 0 where
    never : load_latest_table_snapshot d room s.store ≡ none → LastHand room s
    over :
        (snapshot : DurableTableSnapshot Stored) (state : TableState)
        → load_latest_table_snapshot d room s.store ≡ some snapshot
        → decrypted decrypt snapshot.state ≡ some state
        → is_complete state.phase ≡ true
        → passes state ≡ true
        → snapshot.hand_status ≡ "COMPLETE"
        → LastHand room s
    unusable :
        (snapshot : DurableTableSnapshot Stored)
        → load_latest_table_snapshot d room s.store ≡ some snapshot
        → (decrypted decrypt snapshot.state ≡ none)
          ⊎ ((state : TableState) × (decrypted decrypt snapshot.state ≡ some state)
              × (fits_together room snapshot
                    (load_hand_events_after d snapshot.hand_id 0 s.store)
                    state
                  ≡ false))
        → LastHand room s

  recovered-LastHand :
      (room : String) (s : GatewayState L T) {found : GatewayState L T × Recovered}
      → recover_result d decrypt room (forget d decrypt hash_leave client_message room s) ≡ ok found
      → in_progress (recovered (found.1)) ≡ none
      → LastHand room s
  unfolding recover_result
  recovered-LastHand room s {found} h between =
      let cleared = forget d decrypt hash_leave client_message room s in
      let h1 : recover_snapshot d decrypt room (load_latest_table_snapshot d room s.store) cleared
          ≡ ok found =
        subst (λ c. recover_cached d decrypt room c cleared ≡ ok found)
          (lookup_forgotten room s.runtimes) h in
      elim (Option-cases (load_latest_table_snapshot d room s.store)) [
        | inl nothing ↦ never nothing
        | inr (snapshot, l) ↦ elim (Option-cases (decrypted decrypt snapshot.state)) [
          | inl closed ↦ unusable snapshot l (inl closed)
          | inr (state, opened) ↦
              let events = load_hand_events_after d snapshot.hand_id 0 s.store in
              elim (Bool-cases (fits_together room snapshot events state)) [
                | inr bad ↦ unusable snapshot l (inr (state, opened, bad))
                | inl good ↦
                    let h2 : recover_state d decrypt room snapshot (some state) cleared ≡ ok found =
                      subst (λ c. recover_state d decrypt room snapshot c cleared ≡ ok found) opened
                        (subst (λ c. recover_snapshot d decrypt room c cleared ≡ ok found) l h1) in
                    let made : TableRuntime = record {
                      state = state;
                      action_deadline_at = snapshot.action_deadline_at;
                    } in
                    let same : found.1 ≡ ready made = ground (arith, good, h2) in
                    let finished : is_complete state.phase ≡ true = ground (arith, same, between) in
                    let (sound, status) =
                      fits_together-status room snapshot events state good finished in
                    over snapshot state l opened finished sound status
              ]
        ]
      ]

  abbrev pub MayLeave : LeaveRequest → GatewayState L T → Type 0
  MayLeave q s = (find_table_operation d q.action_id s.store ≡ none) × LastHand q.room_id s

  abbrev LeavesAfter :
      LeaveRequest → GatewayState L T → GatewayState L T × Reply × List Effect → Type 0
  LeavesAfter q s x = (x.2 ≡ []) ⊎ MayLeave q s

  -- If leaving a table is announced to the room, then the action is new, and the database, whatever is
  -- in memory, has no hand of the room that runs and can be played on: it has no snapshot of the room,
  -- or the last one has a state that passes the check and a row that both say that the hand is over,
  -- or the last one cannot be decrypted or fails the checks of the recovery, which drains the room.
  pub leave_under_lock-MayLeave :
      (w : Surroundings) (user : String) (q : LeaveRequest) (s : GatewayState L T)
      {after : GatewayState L T × Reply × List Effect}
      → leave_under_lock d decrypt hash_leave client_message w user q s ≡ ok after
      → (after.2 ≡ []) ⊎ MayLeave q s
  unfolding leave_under_lock
  leave_under_lock-MayLeave w user q s {after} h =
      Yields-ok (LeavesAfter q s) _ {a = after} h
        (done (find_table_operation d q.action_id s.store) refl)
    where
      in_room :
          (room : Option PublicRoomRecord)
          → find_table_operation d q.action_id s.store ≡ none
          → Yields
              (LeavesAfter q s)
              (leave_room d decrypt hash_leave client_message w user q s room)
      in_room none fresh = inl refl
      in_room (some room) fresh =
          >>=-Yields (LeavesAfter q s)
            (recover_result d decrypt q.room_id
              (forget d decrypt hash_leave client_message q.room_id s))
            (λ found. ok (
              leave_unless_playing d decrypt hash_leave client_message w user q (found.0)
                (in_progress (recovered (found.1)))))
            (λ found e. elim (Option-cases (in_progress (recovered (found.1)))) [
              | inl between ↦ inr (fresh, recovered-LastHand q.room_id s {found = found} e between)
              | inr (version, playing) ↦ inl (
                  ap
                    (λ v.
                      (leave_unless_playing d decrypt hash_leave client_message w user q (found.0)
                        v).2)
                    playing)
            ])

      done :
          (found : Option (TableOperation Stored))
          → find_table_operation d q.action_id s.store ≡ found
          → Yields
              (LeavesAfter q s)
              (leave_unless_done d decrypt hash_leave client_message w user q s found)
      done (some o) there =
          if-Yields (LeavesAfter q s) (is_leave_replay q.room_id user (hash_leave q) o)
            (ok (s, success o.ack, [])) (ok (s, failure "ACTION_ID_CONFLICT" none, []))
            (λ c. inl refl) (λ c. inl refl)
      done none there = in_room (find_room d q.room_id s) there
