-- ===== src/Gateway/Actions/Once.antt =====
-- apps/poker-api/src/game/game.gateway.ts: an action that is sent again.
use porker_monorepo.Base.{
  ===_refl, >>=-Yields, Bool-cases, List, Option, Option-cases, Result, Result-cases, String,
  Yields, Yields-ok, [], any, ap, arith, err, if-Yields, inl, inr, is_some, lookup, ltb, none, not,
  ok, ok-injective, refl, some, subst, sym, true, ℕ, ◌===◌, ◌==◌, ◌∙◌, ◌≡◌,
}
use porker_monorepo.Engine.Progress.{Transition}
use porker_monorepo.Engine.Reducer.{Rejection, same}
use porker_monorepo.Engine.Table.{TableState}
use porker_monorepo.Gateway.{
  Effect, Finalized, GatewayState, Reply, Stored, TableRuntime, cashed_out, failure, or_engine,
  settle_if_complete, success,
}
use porker_monorepo.Gateway.Actions.{
  ActionRequest, act_in_room, act_on, act_recovered, act_under_lock, act_unless_done, after_action,
  is_conflict, turn_of,
}
use porker_monorepo.Gateway.Recovery.{
  Recovered, drained, no_hand, ready, recover_cached, recover_result, recovered,
}
use porker_monorepo.Gateway.Recovery.Accepted.{recover_result-Rebuilt}
use porker_monorepo.Gateway.Turns.{Surroundings, commit_input, commits, find_room, is_replay}
use porker_monorepo.Store.{Database, FailureCode, StoreError, after_catch, other_code, p2002, p2034}
use porker_monorepo.Store.Attempts.{attempts-Yields}
use porker_monorepo.Store.Game.{DurableActionAck, GameTables, PublicRoomRecord, TableOperation}
use porker_monorepo.Store.Game.Actions.{after_commit, after_commit-found, commit_unless_done-parts}
use porker_monorepo.Store.Game.Commits.{
  action_ack, commit_catch, commit_durable_action, commit_in_database, commit_unless_done,
  operation_row,
}
use porker_monorepo.Store.Game.Hands.{find_table_operation}
use porker_monorepo.Store.Game.Seats.{list_table_seats}
use porker_monorepo.Store.Rows.{TableLaws}

module _ {L : Type 0} {T : Type 0 → Type 0} (d : Database L T) (tables : TableLaws d.tables)
    (decrypt : String → Option TableState) (encrypt : TableState → String)
    (hash_action : ActionRequest → String) where
  -- The store has the operation of the action, with this acknowledgement.
  abbrev Recorded : String → ActionRequest → GameTables L T Stored → Stored → Type 0
  Recorded user q store ack =
      (o : TableOperation Stored) × (find_table_operation d q.action_id store ≡ some o)
      × (is_replay q.room_id q.hand_id user (hash_action q) o ≡ true)
      × (o.ack ≡ ack)

  abbrev Answered : String → ActionRequest → GatewayState L T → Reply → Type 0
  Answered user q s (success ack) = Recorded user q s.store ack
  Answered user q s (failure code version) = Unit {0}

  abbrev Once : String → ActionRequest → GatewayState L T × Reply × List Effect → Type 0
  Once user q x = Answered user q (x.0) (x.1)

  abbrev CommitRecorded :
      String → ActionRequest → GameTables L T Stored × DurableActionAck Stored → Type 0
  CommitRecorded user q x = Recorded user q (x.0) (x.1).ack

  committed-Recorded :
      (user : String) (q : ActionRequest) (deadline : Option ℕ) (f : Finalized) (now : ℕ)
      (store : GameTables L T Stored)
      → find_table_operation d q.action_id store ≡ none
      → Yields (CommitRecorded user q) (
          commit_in_database d
            (commit_input encrypt (turn_of d decrypt encrypt hash_action user q) deadline f)
            now
            store)
  unfolding commit_in_database
  committed-Recorded user q deadline f now store fresh =
      let input = commit_input encrypt (turn_of d decrypt encrypt hash_action user q) deadline f in
      elim (Result-cases (commit_unless_done d none input now store)) [
        | inr (e, breaks) ↦ rw (fresh, breaks) tt
        | inl (r, commits_to) ↦
            let (stored, _, same) =
              commit_unless_done-parts d tables input now store {r = r} commits_to in
            let type_is : ("ACTION" === "ACTION") ≡ true = ===_refl "ACTION" in
            let made : CommitRecorded user q
                (after_commit d tables input now stored store, action_ack input input.ack true) =
              (
                operation_row input,
                after_commit-found d tables input now stored store fresh,
                rw
                    (
                      type_is,
                      ===_refl q.room_id,
                      ===_refl q.hand_id,
                      ===_refl user,
                      ===_refl (hash_action q),
                    )
                    refl,
                refl,
              ) in
            rw (fresh, commits_to) (subst (CommitRecorded user q) same made)
      ]

  commits-Recorded :
      (w : Surroundings) (user : String) (q : ActionRequest) (deadline : Option ℕ) (f : Finalized)
      (s : GatewayState L T)
      → find_table_operation d q.action_id s.store ≡ none
      → Yields (CommitRecorded user q) (
          commits d w
            (commit_input encrypt (turn_of d decrypt encrypt hash_action user q) deadline f)
            s)
  unfolding commit_durable_action find_table_operation
  commits-Recorded w user q deadline f s fresh =
      let input = commit_input encrypt (turn_of d decrypt encrypt hash_action user q) deadline f in
      attempts-Yields (CommitRecorded user q) _ w.fails_at
        (λ attempt. commit_in_database d input (w.commit_time attempt) s.store)
        (λ attempt left code. commit_catch d input left s.store code) 5 1
        (λ i. committed-Recorded user q deadline f (w.commit_time i) s.store fresh)
        (λ i n code again h. caught n code again h)
    where
      caught :
          (n : ℕ) (code : FailureCode)
          (again : Result StoreError (GameTables L T Stored × DurableActionAck Stored))
          → Yields (CommitRecorded user q) again
          → Yields (CommitRecorded user q) (
              after_catch
                (commit_catch d
                  (commit_input encrypt (turn_of d decrypt encrypt hash_action user q) deadline f)
                  n
                  s.store
                  code)
                again)
      caught n p2034 again h = elim (Bool-cases (ltb 0 n)) [ inl e ↦ rw e h | inr e ↦ rw e tt ]
      caught n p2002 again h = rw fresh tt
      caught n other_code again h = tt

  after_action-Once :
      (w : Surroundings) (user : String) (q : ActionRequest) (room : PublicRoomRecord)
      (f : Finalized) (deadline : Option ℕ) (s : GatewayState L T)
      (committed : Result StoreError (GameTables L T Stored × DurableActionAck Stored))
      → Yields (CommitRecorded user q) committed
      → Yields (Once user q) (
          after_action d decrypt encrypt hash_action w
            (turn_of d decrypt encrypt hash_action user q)
            room
            f
            deadline
            s
            committed)
  after_action-Once w user q room f deadline s (err e) h =
      if-Yields (Once user q) (is_conflict e) _ _ (λ c. tt) (λ c. tt)
  after_action-Once w user q room f deadline s (ok (store, ack)) h =
      if-Yields (Once user q) ack.committed _ _ (λ c. h) (λ c. h)

  act_on-Once :
      (w : Surroundings) (room : PublicRoomRecord) (user : String) (q : ActionRequest)
      (s : GatewayState L T) (result : Result Rejection Transition)
      → find_table_operation d q.action_id s.store ≡ none
      → Yields (Once user q) (act_on d decrypt encrypt hash_action w room user q s result)
  act_on-Once w room user q s (err rejection) fresh = tt
  act_on-Once w room user q s (ok t) fresh =
      >>=-Yields (Once user q) (or_engine (settle_if_complete t.state t.events)) _
        (λ f g. after_action-Once w user q room f _ s _ (commits-Recorded w user q _ f s fresh))

  act_recovered-Once :
      (w : Surroundings) (room : PublicRoomRecord) (user : String) (q : ActionRequest)
      (s : GatewayState L T) (found : Option TableRuntime)
      → (is_some found ≡ true → find_table_operation d q.action_id s.store ≡ none)
      → Yields (Once user q) (act_recovered d decrypt encrypt hash_action w room user q s found)
  act_recovered-Once w room user q s none fresh = tt
  act_recovered-Once w room user q s (some r) fresh =
      if-Yields (Once user q) (not (r.state.hand_id === q.hand_id)) _ _ (λ c. tt)
        (λ c.
          if-Yields (Once user q) (not (q.expected_version == r.state.version)) _ _ (λ b. tt)
            (λ b. act_on-Once w room user q s _ (fresh refl)))

  recovered-store :
      (room : String) (s : GatewayState L T) (found : GatewayState L T × Recovered)
      → recover_result d decrypt room s ≡ ok found
      → is_some (recovered (found.1)) ≡ true
      → (found.0).store ≡ s.store
  unfolding recover_result
  recovered-store room s (s', no_hand) h some_found = ground (arith, some_found)
  recovered-store room s (s', drained) h some_found = ground (arith, some_found)
  recovered-store room s (s', ready r) h some_found = elim (Option-cases (lookup room s.runtimes)) [
    | inl absent ↦
        ap (λ g. g.store)
          (recover_result-Rebuilt d decrypt room s {s' = s'} {runtime = r} absent h).1
    | inr (cached, present) ↦
        let same : ok (s, ready cached) ≡ ok (s', ready r) =
          subst (λ c. recover_cached d decrypt room c s ≡ ok (s', ready r)) present h in
        ap (λ x. x.0.store) (sym (ok-injective same))
  ]

  act_in_room-Once :
      (w : Surroundings) (user : String) (q : ActionRequest) (s : GatewayState L T)
      (found : Option PublicRoomRecord)
      → find_table_operation d q.action_id s.store ≡ none
      → Yields (Once user q) (act_in_room d decrypt encrypt hash_action w user q s found)
  act_in_room-Once w user q s none fresh = tt
  act_in_room-Once w user q s (some room) fresh =
      if-Yields (Once user q) (room.status === "DRAINING") _ _ (λ c. tt)
        (λ c.
          if-Yields (Once user q)
            (not (
              any (λ seat. seat.user_id === user)
                (list_table_seats d cashed_out q.room_id s.store)))
            _ _ (λ b. tt)
            (λ b. >>=-Yields (Once user q) (recover_result d decrypt q.room_id s) _ (λ found e.
              act_recovered-Once w room user q (found.0) (recovered (found.1)) (λ some_found.
                ap (find_table_operation d q.action_id)
                  (recovered-store q.room_id s found e some_found)
                ∙ fresh))))

  act_unless_done-Once :
      (w : Surroundings) (user : String) (q : ActionRequest) (s : GatewayState L T)
      (found : Option (TableOperation Stored))
      → find_table_operation d q.action_id s.store ≡ found
      → Yields (Once user q) (act_unless_done d decrypt encrypt hash_action w user q s found)
  act_unless_done-Once w user q s none e = act_in_room-Once w user q s (find_room d q.room_id s) e
  act_unless_done-Once w user q s (some o) e =
      if-Yields (Once user q) (is_replay q.room_id q.hand_id user (hash_action q) o) _ _
        (λ c. (o, e, c, refl)) (λ c. tt)

  -- On tables that behave as documented, if an action is answered with an acknowledgement, and the same
  -- user sends the same action again, he gets the same acknowledgement, whatever the failures of the database and the clock were; and
  -- the second time nothing changes and nothing is sent.
  pub act_under_lock-once :
      (w later : Surroundings) (user : String) (q : ActionRequest) (s s' : GatewayState L T)
      (ack : Stored) (sent : List Effect)
      → act_under_lock d decrypt encrypt hash_action w user q s ≡ ok (s', success ack, sent)
      → act_under_lock d decrypt encrypt hash_action later user q s' ≡ ok (s', success ack, [])
  unfolding act_under_lock
  act_under_lock-once w later user q s s' ack sent h =
      let (o, found, replay, same) =
        Yields-ok (Once user q) _ {a = (s', success ack, sent)} h
          (act_unless_done-Once w user q s (find_table_operation d q.action_id s.store) refl) in
      rw (found, replay, same) refl
