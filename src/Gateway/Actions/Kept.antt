-- ===== src/Gateway/Actions/Kept.antt =====
-- apps/poker-api/src/game/game.gateway.ts: what an action keeps of the table in memory.
use porker_monorepo.Base.{
  ===_refl, >>=-Yields, List, Option, Result, String, Yields, Yields-ok, any, ap, err, if-Yields,
  if◌then◌else◌, insert, lookup, lookup-insert, none, not, ok, refl, some, subst, sym, true, ℕ,
  ◌===◌, ◌==◌, ◌>>=◌, ◌∙◌, ◌≡◌,
}
use porker_monorepo.Engine.Commands.{TableCommand}
use porker_monorepo.Engine.Invariants.{assert_invariants}
use porker_monorepo.Engine.Invariants.Facts.{Stocked}
use porker_monorepo.Engine.Progress.{Transition}
use porker_monorepo.Engine.Reducer.{Rejection, apply_command_result}
use porker_monorepo.Engine.Reducer.Chips.{apply_command_result-total_chips}
use porker_monorepo.Engine.Reducer.Invariant.{apply_command_result-assert_invariants}
use porker_monorepo.Engine.Table.{TableState}
use porker_monorepo.Gateway.{
  Effect, Finalized, GatewayState, Reply, Stored, TableRuntime, cashed_out, or_engine,
  settle_if_complete,
}
use porker_monorepo.Gateway.Actions.{
  ActionRequest, Handled, act_in_room, act_on, act_recovered, act_under_lock, act_unless_done,
  after_action, is_conflict, turn_of,
}
use porker_monorepo.Gateway.Recovery.{recover_cached, recover_result, recovered}
use porker_monorepo.Gateway.Settlement.{Kept, settle_if_complete-Kept}
use porker_monorepo.Gateway.Turns.{
  Surroundings, Turn, find_room, is_replay, or_engine-ok, runtime_of,
}
use porker_monorepo.Store.{Database, StoreError}
use porker_monorepo.Store.Game.{DurableActionAck, GameTables, PublicRoomRecord, TableOperation}
use porker_monorepo.Store.Game.Hands.{find_table_operation}
use porker_monorepo.Store.Game.Seats.{list_table_seats}

pub Kept-start : (s : TableState) → assert_invariants s ≡ ok tt → Stocked s → Kept s s
Kept-start s v st = record { consistent = v; stocked = st; chips = refl }

-- An action that the engine accepts, and the settlement after it.
pub played-Kept :
    (s : TableState) (c : TableCommand) {t : Transition} {f : Finalized}
    → Kept s s
    → apply_command_result s c ≡ ok t
    → or_engine (settle_if_complete t.state t.events) ≡ ok f
    → Kept s f.state
played-Kept s c {t} {f} k h g =
    let (v, st) = apply_command_result-assert_invariants s c {t = t} h k.consistent k.stocked in
    let settled_now =
      settle_if_complete-Kept t.state t.events {f = f} v st (or_engine-ok _ {a = f} g) in
    record {
      consistent = settled_now.consistent;
      stocked = settled_now.stocked;
      chips = settled_now.chips ∙ apply_command_result-total_chips s c {t = t} h;
    }

module _ {L : Type 0} {T : Type 0 → Type 0} where
  -- The room has a runtime, which keeps what the action found.
  abbrev pub HasKept : String → TableState → GatewayState L T → Type 0
  HasKept room before s =
      (after : TableRuntime) × (lookup room s.runtimes ≡ some after) × Kept before after.state

  pub inserted-HasKept :
      (room : String) (before : TableState) (runtime : TableRuntime)
      (runtimes : List (String × TableRuntime)) (store : GameTables L T Stored)
      → Kept before runtime.state
      → HasKept room before (record { store = store; runtimes = insert room runtime runtimes })
  inserted-HasKept room before runtime runtimes store k =
      let self : (room === room) ≡ true = ===_refl room in
      (
        runtime,
        lookup-insert room room runtime runtimes
            ∙ ap (λ b. if b then some runtime else lookup room runtimes) self,
        k,
      )

module _ {L : Type 0} {T : Type 0 → Type 0} (d : Database L T)
    (decrypt : String → Option TableState) (encrypt : TableState → String)
    (hash_action : ActionRequest → String) where
  abbrev Safe : String → TableState → Handled d decrypt encrypt hash_action → Type 0
  Safe room before = Yields (λ x. HasKept room before (x.0))

  after_action-Safe :
      (w : Surroundings) (taken : Turn) (room : PublicRoomRecord) (f : Finalized)
      (deadline : Option ℕ) (s : GatewayState L T) (before : TableState)
      (committed : Result StoreError (GameTables L T Stored × DurableActionAck Stored))
      → HasKept taken.room_id before s
      → Kept before f.state
      → Safe taken.room_id before
          (after_action d decrypt encrypt hash_action w taken room f deadline s committed)
  after_action-Safe w taken room f deadline s before (err e) h k =
      if-Yields (λ x. HasKept taken.room_id before (x.0)) (is_conflict e) _ _ (λ c. h) (λ c. tt)
  after_action-Safe w taken room f deadline s before (ok (store, ack)) h k =
      if-Yields (λ x. HasKept taken.room_id before (x.0)) ack.committed _ _
        (λ c. inserted-HasKept taken.room_id before (runtime_of f deadline) s.runtimes store k)
        (λ c. h)

  act_on-Safe :
      (w : Surroundings) (room : PublicRoomRecord) (user : String) (q : ActionRequest)
      (s : GatewayState L T) (before : TableState) (c : TableCommand)
      (result : Result Rejection Transition)
      → HasKept q.room_id before s
      → Kept before before
      → apply_command_result before c ≡ result
      → Safe q.room_id before (act_on d decrypt encrypt hash_action w room user q s result)
  act_on-Safe w room user q s before c (err rejection) h k e = h
  act_on-Safe w room user q s before c (ok t) h k e =
      >>=-Yields (λ x. HasKept q.room_id before (x.0))
        (or_engine (settle_if_complete t.state t.events)) _
        (λ f g.
          after_action-Safe w (turn_of d decrypt encrypt hash_action user q) room f _ s before _ h
            (played-Kept before c {t = t} {f = f} k e g))

  act_recovered-Safe :
      (w : Surroundings) (room : PublicRoomRecord) (user : String) (q : ActionRequest)
      (s : GatewayState L T) (runtime : TableRuntime)
      → HasKept q.room_id runtime.state s
      → Kept runtime.state runtime.state
      → Safe q.room_id runtime.state
          (act_recovered d decrypt encrypt hash_action w room user q s (some runtime))
  act_recovered-Safe w room user q s runtime h k =
      let P =
        λ (x : GatewayState L T × Reply × List Effect). HasKept q.room_id runtime.state (x.0) in
      if-Yields P (not (runtime.state.hand_id === q.hand_id)) _ _ (λ c. h)
        (λ c.
          if-Yields P (not (q.expected_version == runtime.state.version)) _ _ (λ b. h)
            (λ b. act_on-Safe w room user q s runtime.state _ _ h k refl))

  act_in_room-Safe :
      (w : Surroundings) (user : String) (q : ActionRequest) (s : GatewayState L T)
      (runtime : TableRuntime) (found : Option PublicRoomRecord)
      → lookup q.room_id s.runtimes ≡ some runtime
      → Kept runtime.state runtime.state
      → Safe q.room_id runtime.state (act_in_room d decrypt encrypt hash_action w user q s found)
  unfolding recover_result
  act_in_room-Safe w user q s runtime none cached k = (runtime, cached, k)
  act_in_room-Safe w user q s runtime (some room) cached k =
      let P =
        λ (x : GatewayState L T × Reply × List Effect). HasKept q.room_id runtime.state (x.0) in
      if-Yields P (room.status === "DRAINING") _ _ (λ c. (runtime, cached, k))
        (λ c.
          if-Yields P
            (not (
              any (λ seat. seat.user_id === user)
                (list_table_seats d cashed_out q.room_id s.store)))
            _ _ (λ b. (runtime, cached, k))
            (λ b.
              subst
                (λ c. Yields P (
                  recover_cached d decrypt q.room_id c s >>= λ found.
                  act_recovered d decrypt encrypt hash_action w room user q (found.0)
                    (recovered (found.1))))
                (sym cached) (act_recovered-Safe w room user q s runtime (runtime, cached, k) k)))

  act_unless_done-Safe :
      (w : Surroundings) (user : String) (q : ActionRequest) (s : GatewayState L T)
      (runtime : TableRuntime) (found : Option (TableOperation Stored))
      → lookup q.room_id s.runtimes ≡ some runtime
      → Kept runtime.state runtime.state
      → Safe q.room_id runtime.state
          (act_unless_done d decrypt encrypt hash_action w user q s found)
  act_unless_done-Safe w user q s runtime none cached k =
      act_in_room-Safe w user q s runtime (find_room d q.room_id s) cached k
  act_unless_done-Safe w user q s runtime (some o) cached k =
      if-Yields (λ x. HasKept q.room_id runtime.state (x.0))
        (is_replay q.room_id q.hand_id user (hash_action q) o) _ _ (λ c. (runtime, cached, k))
        (λ c. (runtime, cached, k))

  -- If the table of a room in memory passes assertInvariants and has the cards that its board still
  -- wants, then so does the table that an action leaves in memory, where the handler does not throw,
  -- and no chip has appeared or gone.
  pub act_under_lock-Kept :
      (w : Surroundings) (user : String) (q : ActionRequest) (s : GatewayState L T)
      (runtime : TableRuntime) {after : GatewayState L T × Reply × List Effect}
      → lookup q.room_id s.runtimes ≡ some runtime
      → assert_invariants runtime.state ≡ ok tt
      → Stocked runtime.state
      → act_under_lock d decrypt encrypt hash_action w user q s ≡ ok after
      → HasKept q.room_id runtime.state (after.0)
  unfolding act_under_lock
  act_under_lock-Kept w user q s runtime {after} cached v st h =
      Yields-ok
        (λ (x : GatewayState L T × Reply × List Effect). HasKept q.room_id runtime.state (x.0)) _
        {a = after} h
        (act_unless_done-Safe w user q s runtime (find_table_operation d q.action_id s.store) cached
          (Kept-start runtime.state v st))
