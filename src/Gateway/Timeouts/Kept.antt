-- ===== src/Gateway/Timeouts/Kept.antt =====
-- apps/poker-api/src/game/game.gateway.ts: what the action of the clock keeps of the table in memory.
use porker_monorepo.Base.{
  >>=-Yields, List, Option, Result, String, Yields, Yields-ok, err, if-Yields, lookup, none, not,
  ok, refl, some, subst, ◌===◌, ◌>>=◌, ◌||◌, ◌≡◌,
}
use porker_monorepo.Engine.Commands.{Action, TableCommand}
use porker_monorepo.Engine.Invariants.{assert_invariants}
use porker_monorepo.Engine.Invariants.Facts.{Stocked}
use porker_monorepo.Engine.Progress.{Transition}
use porker_monorepo.Engine.Reducer.{Rejection, apply_command_result}
use porker_monorepo.Engine.Table.{TableState, is_complete}
use porker_monorepo.Gateway.{
  Effect, Finalized, GatewayState, Stored, TableRuntime, or_engine, or_store, settle_if_complete,
}
use porker_monorepo.Gateway.Actions.Kept.{HasKept, Kept-start, inserted-HasKept, played-Kept}
use porker_monorepo.Gateway.Recovery.{recover_cached, recover_result, recovered}
use porker_monorepo.Gateway.Settlement.{Kept}
use porker_monorepo.Gateway.Timeouts.{
  Done, ExpectedTurn, is_expected_turn, is_required_user, perform_automatic_action,
  time_out_in_room, time_out_on, time_out_recovered, time_out_unless_done, timeout_turn,
}
use porker_monorepo.Gateway.Turns.{Surroundings, Turn, commits, find_room, is_replay, runtime_of}
use porker_monorepo.Store.{Database}
use porker_monorepo.Store.Game.{PublicRoomRecord, TableOperation}
use porker_monorepo.Store.Game.Sessions.{clear_disconnect_grace}

module _ {L : Type 0} {T : Type 0 → Type 0} (d : Database L T)
    (decrypt : String → Option TableState) (encrypt : TableState → String)
    (hash_turn : Action → String → String) where
  abbrev Safe : String → TableState → Done d decrypt encrypt hash_turn → Type 0
  Safe room before = Yields (λ x. HasKept room before (x.0))

  time_out_in_room-Safe :
      (w : Surroundings) (taken : Turn) (f : Finalized) (s : GatewayState L T) (before : TableState)
      (found : Option PublicRoomRecord)
      → HasKept taken.room_id before s
      → Kept before f.state
      → Safe taken.room_id before (time_out_in_room d decrypt encrypt hash_turn w taken f s found)
  time_out_in_room-Safe w taken f s before none h k = h
  time_out_in_room-Safe w taken f s before (some room) h k =
      let P = λ (x : GatewayState L T × List Effect). HasKept taken.room_id before (x.0) in
      if-Yields P (room.status === "DRAINING") _ _ (λ c. h)
        (λ c. >>=-Yields P (or_store (commits d w _ s)) _ (λ committed e.
          inserted-HasKept {L = L} {T = T} taken.room_id before (runtime_of f _) s.runtimes
            (clear_disconnect_grace d taken.room_id taken.actor_user_id (committed.0)) k))

  time_out_on-Safe :
      (w : Surroundings) (taken : Turn) (s : GatewayState L T) (before : TableState)
      (c : TableCommand) (result : Result Rejection Transition)
      → HasKept taken.room_id before s
      → Kept before before
      → apply_command_result before c ≡ result
      → Safe taken.room_id before (time_out_on d decrypt encrypt hash_turn w taken s result)
  time_out_on-Safe w taken s before c (err rejection) h k e = h
  time_out_on-Safe w taken s before c (ok t) h k e =
      >>=-Yields (λ x. HasKept taken.room_id before (x.0))
        (or_engine (settle_if_complete t.state t.events)) _
        (λ f g.
          time_out_in_room-Safe w taken f s before (find_room d taken.room_id s) h
            (played-Kept before c {t = t} {f = f} k e g))

  time_out_unless_done-Safe :
      (w : Surroundings) (taken : Turn) (s : GatewayState L T) (before : TableState)
      (found : Option (TableOperation Stored))
      → HasKept taken.room_id before s
      → Kept before before
      → Safe taken.room_id before
          (time_out_unless_done d decrypt encrypt hash_turn w taken before s found)
  time_out_unless_done-Safe w taken s before (some o) h k =
      if-Yields (λ x. HasKept taken.room_id before (x.0))
        (is_replay taken.room_id taken.hand_id taken.actor_user_id taken.payload_hash o) _ _
        (λ c. h) (λ c. tt)
  time_out_unless_done-Safe w taken s before none h k =
      time_out_on-Safe w taken s before _ _ h k refl

  -- If the table of a room in memory passes assertInvariants and has the cards that its board still
  -- wants, then so does the table that the action of the clock leaves in memory, where it does not
  -- throw, and no chip has appeared or gone.
  pub perform_automatic_action-Kept :
      (w : Surroundings) (room : String) (required : Option String) (expected : Option ExpectedTurn)
      (s : GatewayState L T) (runtime : TableRuntime) {after : GatewayState L T × List Effect}
      → lookup room s.runtimes ≡ some runtime
      → assert_invariants runtime.state ≡ ok tt
      → Stocked runtime.state
      → perform_automatic_action d decrypt encrypt hash_turn w room required expected s ≡ ok after
      → HasKept room runtime.state (after.0)
  unfolding perform_automatic_action recover_result
  perform_automatic_action-Kept w room required expected s runtime {after} cached v st h =
      let P = λ (x : GatewayState L T × List Effect). HasKept room runtime.state (x.0) in
      let k = Kept-start runtime.state v st in
      let h' : time_out_recovered d decrypt encrypt hash_turn w room required expected s
            (some runtime)
          ≡ ok after =
        subst
          (λ c.
            (recover_cached d decrypt room c s >>= λ found.
            time_out_recovered d decrypt encrypt hash_turn w room required expected (found.0)
              (recovered (found.1)))
            ≡ ok after)
          cached h in
      Yields-ok P _ {a = after} h' (
        if-Yields P
          (is_complete runtime.state.phase
            || not (is_expected_turn expected runtime)
            || not (is_required_user required runtime.state.actor_id))
          _ _ (λ c. (runtime, cached, k))
          (λ c.
            time_out_unless_done-Safe w
              (timeout_turn d decrypt encrypt hash_turn room runtime.state) s runtime.state _
              (runtime, cached, k) k))
