-- ===== src/Gateway/NextHand.antt =====
-- apps/poker-api/src/game/game.gateway.ts: the next hand of a table.
use porker_monorepo.Base.{
  >>=-Yields, List, Option, Result, String, Yields, Yields-ok, [], if-Yields, if◌then◌else◌, inl,
  inr, insert, lookup, none, not, ok, refl, some, subst, true, ℕ, ◌===◌, ◌>>=◌, ◌>>◌, ◌||◌, ◌∷◌,
  ◌≡◌, ◌⊎◌,
}
use porker_monorepo.Engine.Advance.{advance_hand}
use porker_monorepo.Engine.Advance.Chips.{advance_hand-total_chips}
use porker_monorepo.Engine.Cards.{Card}
use porker_monorepo.Engine.Invariants.{assert_invariants}
use porker_monorepo.Engine.Table.{TableState, is_complete, total_chips}
use porker_monorepo.Gateway.{
  Effect, GatewayState, Stored, TableRuntime, Thrown, action_deadline, cannot_go_on, envelope,
  or_engine, or_store, seat_stacks, table_snapshot, timeout_scheduled,
}
use porker_monorepo.Gateway.Recovery.{recover_cached, recover_result, recovered}
use porker_monorepo.Gateway.Turns.{find_room, insert_self, or_engine-ok}
use porker_monorepo.Store.{Database}
use porker_monorepo.Store.Game.{GameTables, PublicRoomRecord}
use porker_monorepo.Store.Game.Hands.{CreateHandInput, create_durable_hand}

-- What the handler makes up: the id of the hand, its deck, and the sealed record of the deck.
pub record FreshHand : Type 0 where
  pub hand_id : String
  pub deck : List Card
  pub encrypted_audit : String

module _ {L : Type 0} {T : Type 0 → Type 0} (d : Database L T)
    (decrypt : String → Option TableState) (encrypt : TableState → String) where
  abbrev pub Started : Type 0
  Started = Result Thrown (GatewayState L T × List Effect)

  abbrev pub hand_input : String → FreshHand → TableState → ℕ → CreateHandInput Stored
  hand_input room fresh state deadline = record {
    room_id = room;
    hand_id = fresh.hand_id;
    state = envelope (encrypt state);
    encrypted_audit = fresh.encrypted_audit;
    seat_stacks = seat_stacks state;
    action_deadline_at = deadline;
  }

  abbrev pub hand_started :
      String
      → FreshHand
      → TableState
      → ℕ
      → GatewayState L T
      → GameTables L T Stored
      → GatewayState L T × List Effect
  hand_started room fresh state deadline s store = (
    record s {
      store = store;
      runtimes =
          insert room (record { state = state; action_deadline_at = some deadline }) s.runtimes;
    },
    table_snapshot room fresh.hand_id state.version ∷ timeout_scheduled room deadline ∷ [],
  )

  abbrev pub start_checked : String → FreshHand → ℕ → GatewayState L T → TableState → Started
  start_checked room fresh deadline s state = do
    or_engine (assert_invariants state)
    created ← or_store (create_durable_hand d (hand_input room fresh state deadline) s.store)
    ok (hand_started room fresh state deadline s (created.0))

  abbrev pub start_from : String → FreshHand → ℕ → GatewayState L T → TableState → Started
  start_from room fresh deadline s before = do
    following ←
        or_engine
          (advance_hand before (some (record { hand_id = fresh.hand_id; deck = fresh.deck })))
    start_checked room fresh deadline s (record following { version = 0 })

  abbrev pub start_if_ready :
      String
      → String
      → FreshHand
      → ℕ
      → GatewayState L T
      → Option PublicRoomRecord
      → Option TableRuntime
      → Started
  start_if_ready room ended fresh now s none found = ok (s, [])
  start_if_ready room ended fresh now s (some public) none = ok (s, [])
  start_if_ready room ended fresh now s (some public) (some r) =
      if not (r.state.hand_id === ended)
        || not (is_complete r.state.phase)
        || cannot_go_on r.state public.min_buy_in
      then ok (s, [])
      else start_from room fresh (action_deadline now public.action_timeout_seconds) s r.state

  unfoldable pub start_next_hand : String → String → FreshHand → ℕ → GatewayState L T → Started
  unfolding recover_result
  start_next_hand room ended fresh now s = do
    found ← recover_result d decrypt room s
    start_if_ready room ended fresh now (found.0) (find_room d room s) (recovered (found.1))

  -- A hand was started on this table: it is complete before, and has the same chips after.
  pub record Dealt (room : String) (fresh : FreshHand) (before : TableState) (s : GatewayState L T)
      : Type 0 where
    pub runtime : TableRuntime
    pub in_memory : lookup room s.runtimes ≡ some runtime
    pub consistent : assert_invariants runtime.state ≡ ok tt
    pub was_complete : is_complete before.phase ≡ true
    pub chips : total_chips runtime.state.players ≡ total_chips before.players
    pub hand : runtime.state.hand_id ≡ fresh.hand_id
    pub first_version : runtime.state.version ≡ 0

  abbrev IdleOrDealt :
      String → FreshHand → TableState → GatewayState L T → GatewayState L T × List Effect → Type 0
  IdleOrDealt room fresh before s x = (x ≡ (s, [])) ⊎ Dealt room fresh before (x.0)

  start_from-IdleOrDealt :
      (room : String) (fresh : FreshHand) (deadline : ℕ) (s : GatewayState L T)
      (before : TableState)
      → Yields (IdleOrDealt room fresh before s) (start_from room fresh deadline s before)
  start_from-IdleOrDealt room fresh deadline s before =
      let P = IdleOrDealt room fresh before s in
      >>=-Yields P (or_engine (advance_hand before _)) _ (λ following advanced.
        >>=-Yields P (or_engine (assert_invariants (record following { version = 0 }))) _
          (λ u passed. >>=-Yields P (or_store (create_durable_hand d _ s.store)) _ (λ created e.
            let (done, _, _, hand, _, chips) =
              advance_hand-total_chips before _ {t = following}
                (or_engine-ok _ {a = following} advanced) in
            inr (record {
              runtime = record {
                state = record following { version = 0 };
                action_deadline_at = some deadline;
              };
              in_memory = insert_self room _ s.runtimes;
              consistent = or_engine-ok _ {a = u} passed;
              was_complete = done;
              chips = chips;
              hand = hand;
              first_version = refl;
            }))))

  -- When `startNextHand` returns, for a room in memory, nothing has happened, or the hand before is
  -- complete, and the hand that is now in memory passes assertInvariants, has version 0 and the id
  -- that was made up for it, and the same chips in all.
  pub start_next_hand-Dealt :
      (room ended : String) (fresh : FreshHand) (now : ℕ) (s : GatewayState L T)
      (before : TableRuntime) {after : GatewayState L T × List Effect}
      → lookup room s.runtimes ≡ some before
      → start_next_hand room ended fresh now s ≡ ok after
      → (after ≡ (s, [])) ⊎ Dealt room fresh before.state (after.0)
  unfolding start_next_hand recover_result
  start_next_hand-Dealt room ended fresh now s before {after} cached h =
      let P = IdleOrDealt room fresh before.state s in
      let h' : start_if_ready room ended fresh now s (find_room d room s) (some before) ≡ ok after =
        subst
          (λ c.
            (recover_cached d decrypt room c s >>= λ found.
            start_if_ready room ended fresh now (found.0) (find_room d room s)
              (recovered (found.1)))
            ≡ ok after)
          cached h in
      Yields-ok P _ {a = after} h' (started_or_not (find_room d room s))
    where
      started_or_not :
          (public : Option PublicRoomRecord)
          → Yields
              (IdleOrDealt room fresh before.state s)
              (start_if_ready room ended fresh now s public (some before))
      started_or_not none = inl refl
      started_or_not (some public) =
          let deadline = action_deadline now public.action_timeout_seconds in
          if-Yields (IdleOrDealt room fresh before.state s)
            (not (before.state.hand_id === ended)
              || not (is_complete before.state.phase)
              || cannot_go_on before.state public.min_buy_in)
            (ok (s, [])) (start_from room fresh deadline s before.state) (λ c. inl refl)
            (λ c. start_from-IdleOrDealt room fresh deadline s before.state)
