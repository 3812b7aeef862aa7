-- ===== src/Gateway/Recovery.antt =====
-- apps/poker-api/src/game/recovery.service.ts: the runtime of a table, from memory or from the
-- database. A room whose snapshot or events do not fit together is set to draining.
pub mod Accepted
use porker_monorepo.Base.{
  Bool, List, Option, Result, String, [], all, count_by, err, false, filter, if◌then◌else◌,
  includes, insert, keys, leb, length, lookup, ltb, none, not, ok, some, true, ℕ, ◌&&◌, ◌+◌, ◌-◌,
  ◌===◌, ◌==◌, ◌>>=◌, ◌>>◌, ◌||◌, ◌∷◌,
}
use porker_monorepo.Engine.Commands.{
  player_bet, player_called, player_checked, player_folded, player_raised, street_completed,
}
use porker_monorepo.Engine.Invariants.{assert_invariants}
use porker_monorepo.Engine.Table.{
  BettingPhase, TableState, complete, flop, is_complete, player_ids, preflop, river, turn,
}
use porker_monorepo.Gateway.{
  GatewayState, RoundEvent, Stored, TableRuntime, Thrown, acknowledged, already_left, cashed_out,
  envelope, event_type, game, hand_settled, or_store, other_json, payload,
}
use porker_monorepo.Store.{Database}
use porker_monorepo.Store.Game.{DurableHandEvent, DurableTableSnapshot, last}
use porker_monorepo.Store.Game.Hands.{load_hand_events_after, load_latest_table_snapshot}
use porker_monorepo.Store.Game.Releases.{set_room_draining}

abbrev pub is_street : BettingPhase → Bool
is_street preflop = false
is_street flop = true
is_street turn = true
is_street river = true
is_street complete = true

-- `playerId`, where the payload has one.
abbrev pub player_ids_of : RoundEvent → List String
player_ids_of (game (player_folded id)) = id ∷ []
player_ids_of (game (player_checked id)) = id ∷ []
player_ids_of (game (player_called id amount)) = id ∷ []
player_ids_of (game (player_bet id amount)) = id ∷ []
player_ids_of (game (player_raised id amount full)) = id ∷ []
player_ids_of (game (street_completed phase)) = []
player_ids_of (hand_settled pot awards chips_left) = []

abbrev pub is_valid_value : RoundEvent → Bool
is_valid_value (game (player_folded id)) = not (id === "")
is_valid_value (game (player_checked id)) = not (id === "")
is_valid_value (game (player_called id amount)) = not (id === "") && ltb 0 amount
is_valid_value (game (player_bet id amount)) = not (id === "") && ltb 0 amount
is_valid_value (game (player_raised id amount full)) = not (id === "") && ltb 0 amount
is_valid_value (game (street_completed phase)) = is_street phase
is_valid_value (hand_settled pot awards chips_left) = true

-- The types that a payload can have are those of the set `EVENT_TYPES`.
unfoldable pub is_valid_event_payload : String → Stored → Bool
is_valid_event_payload type (payload e) = event_type e === type && is_valid_value e
is_valid_event_payload type (envelope text) = false
is_valid_event_payload type (acknowledged ack) = false
is_valid_event_payload type (cashed_out user amount) = false
is_valid_event_payload type (already_left id) = false
is_valid_event_payload type other_json = false

abbrev pub named_ids : RoundEvent → List String
named_ids (game e) = player_ids_of (game e)
named_ids (hand_settled pot awards chips_left) = keys chips_left

unfoldable pub names_players : List String → Stored → Bool
names_players ids (payload e) = all (includes ids) (named_ids e)
names_players ids (envelope text) = true
names_players ids (acknowledged ack) = true
names_players ids (cashed_out user amount) = true
names_players ids (already_left id) = true
names_players ids other_json = true

abbrev pub is_settlement : DurableHandEvent Stored → Bool
is_settlement e = e.type === "hand-settled"

abbrev pub ends_in_settlement : Option (DurableHandEvent Stored) → Bool
ends_in_settlement none = false
ends_in_settlement (some e) = is_settlement e

unfoldable pub has_paired_settlement : List (DurableHandEvent Stored) → ℕ → Bool
has_paired_settlement events version =
    let same = filter (λ e. e.version == version) events in
    leb 2 (length same) && ends_in_settlement (last same) && count_by is_settlement same == 1

-- The two tests of the loop on one event.
unfoldable pub is_next_event :
    List String → List (DurableHandEvent Stored) → ℕ → ℕ → DurableHandEvent Stored → Bool
unfolding has_paired_settlement is_valid_event_payload names_players
is_next_event ids events index prior e =
    e.sequence == index + 1
    && leb prior e.version
    && leb (e.version - prior) 2
    && (not (e.version - prior == 2) || has_paired_settlement events e.version)
    && is_valid_event_payload e.type e.payload
    && names_players ids e.payload

-- The loop over the events: the version of the last one, or nothing.
unfoldable pub last_version :
    List String → List (DurableHandEvent Stored) → ℕ → ℕ → List (DurableHandEvent Stored) → Option ℕ
unfolding is_next_event
last_version ids events index prior [] = some prior
last_version ids events index prior (e ∷ es) =
    let rest = last_version ids events (index + 1) e.version es in
    if is_next_event ids events index prior e then rest else none

abbrev pub is_none {ℓ} : {A : Type ℓ} → Option A → Bool
is_none none = true
is_none (some a) = false

-- No deadline on a hand that is over, and one on any other.
abbrev pub deadline_fits : TableState → Option ℕ → Bool
deadline_fits state at = if is_complete state.phase then is_none at else not (is_none at)

abbrev pub status_fits : TableState → String → Bool
status_fits state status =
    if is_complete state.phase then status === "COMPLETE" else status === "IN_PROGRESS"

abbrev pub ends_at : List (DurableHandEvent Stored) → ℕ → Option ℕ → Bool
ends_at events version none = false
ends_at events version (some prior) = leb (length events) 0 || prior == version

abbrev pub decrypted : (String → Option TableState) → Stored → Option TableState
decrypted decrypt (envelope text) = decrypt text
decrypted decrypt (payload e) = none
decrypted decrypt (acknowledged ack) = none
decrypted decrypt (cashed_out user amount) = none
decrypted decrypt (already_left id) = none
decrypted decrypt other_json = none

abbrev pub passes : TableState → Bool
passes state = elim (assert_invariants state) [ ok u ↦ true | err e ↦ false ]

abbrev pub is_of_snapshot : String → DurableTableSnapshot Stored → TableState → Bool
is_of_snapshot room snapshot state =
    leb 2 (length state.players)
    && state.table_id === room
    && snapshot.hand_room_id === room
    && state.hand_id === snapshot.hand_id
    && state.version == snapshot.version

-- All the tests on a decrypted snapshot and the events of its hand.
unfoldable pub fits_together :
    String → DurableTableSnapshot Stored → List (DurableHandEvent Stored) → TableState → Bool
unfolding last_version
fits_together room snapshot events state =
    is_of_snapshot room snapshot state
    && passes state
    && deadline_fits state snapshot.action_deadline_at
    && status_fits state snapshot.hand_status
    && ends_at events snapshot.version (last_version (player_ids state.players) events 0 0 events)

pub data Recovered : Type 0 where
  ready : TableRuntime → Recovered
  no_hand drained : Recovered

module _ {L : Type 0} {T : Type 0 → Type 0} (d : Database L T)
    (decrypt : String → Option TableState) where
  abbrev pub drain : String → GatewayState L T → Result Thrown (GatewayState L T × Recovered)
  drain room s = do
    store ← or_store (set_room_draining d cashed_out room s.store)
    ok (record s { store = store }, drained)

  abbrev pub with_runtime : String → TableRuntime → GatewayState L T → GatewayState L T
  with_runtime room runtime s = record s { runtimes = insert room runtime s.runtimes }

  abbrev pub recover_state :
      String
      → DurableTableSnapshot Stored
      → Option TableState
      → GatewayState L T
      → Result Thrown (GatewayState L T × Recovered)
  recover_state room snapshot none s = drain room s
  recover_state room snapshot (some state) s =
      let events = load_hand_events_after d snapshot.hand_id 0 s.store in
      let runtime : TableRuntime = record {
        state = state;
        action_deadline_at = snapshot.action_deadline_at;
      } in
      if fits_together room snapshot events state
      then ok (with_runtime room runtime s, ready runtime)
      else drain room s

  abbrev pub recover_snapshot :
      String
      → Option (DurableTableSnapshot Stored)
      → GatewayState L T
      → Result Thrown (GatewayState L T × Recovered)
  recover_snapshot room none s = ok (s, no_hand)
  recover_snapshot room (some snapshot) s =
      recover_state room snapshot (decrypted decrypt snapshot.state) s

  abbrev pub recover_cached :
      String → Option TableRuntime → GatewayState L T → Result Thrown (GatewayState L T × Recovered)
  recover_cached room (some runtime) s = ok (s, ready runtime)
  recover_cached room none s = recover_snapshot room (load_latest_table_snapshot d room s.store) s

  unfoldable pub recover_result :
      String → GatewayState L T → Result Thrown (GatewayState L T × Recovered)
  unfolding fits_together
  recover_result room s = recover_cached room (lookup room s.runtimes) s

abbrev pub recovered : Recovered → Option TableRuntime
recovered (ready runtime) = some runtime
recovered no_hand = none
recovered drained = none
