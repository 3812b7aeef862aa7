-- ===== src/Gateway/Recovery/Accepted.antt =====
-- apps/poker-api/src/game/recovery.service.ts: what a recovered table is known to be.
use porker_monorepo.Base.{
  ===_iff, >>=-eq-ok, Bool-cases, List, Option, Option-cases, String, [], arith, inl, inr, lookup,
  none, ok, some, subst, sym, true, ℕ, ◌+◌, ◌===◌, ◌∷◌, ◌≡◌, ◌≢◌, ◌≤◌,
}
use porker_monorepo.Engine.Invariants.{assert_invariants}
use porker_monorepo.Engine.Table.{TableState, player_ids}
use porker_monorepo.Gateway.{GatewayState, Stored, TableRuntime, cashed_out, or_store}
use porker_monorepo.Gateway.Recovery.{
  decrypted, drain, ends_at, fits_together, is_next_event, last_version, passes, ready,
  recover_cached, recover_result, recover_snapshot, recover_state, with_runtime,
}
use porker_monorepo.Store.{Database}
use porker_monorepo.Store.Game.{DurableHandEvent, DurableTableSnapshot}
use porker_monorepo.Store.Game.Hands.{load_hand_events_after, load_latest_table_snapshot}
use porker_monorepo.Store.Game.Releases.{set_room_draining}

-- The events are numbered from one without a gap, and none is newer than the last version.
abbrev pub Numbered : ℕ → ℕ → List (DurableHandEvent Stored) → Type 0
Numbered index version [] = Unit {0}
Numbered index version (e ∷ es) =
    (e.sequence ≡ index + 1) × (e.version ≤ version) × Numbered (index + 1) version es

last_version-Numbered :
    (ids : List String) (events : List (DurableHandEvent Stored)) (index prior : ℕ)
    (es : List (DurableHandEvent Stored)) {version : ℕ}
    → last_version ids events index prior es ≡ some version
    → (prior ≤ version) × Numbered index version es
unfolding last_version is_next_event
last_version-Numbered ids events index prior [] h = (ground (arith, h), tt)
last_version-Numbered ids events index prior (e ∷ es) {version} h =
    elim (Bool-cases (is_next_event ids events index prior e)) [
      | inr bad ↦ ground (arith, bad, h)
      | inl good ↦
          let (later, numbered) =
            last_version-Numbered ids events (index + 1) e.version es {version = version}
              (ground (arith, good, h)) in
          (ground (arith, good, later), (ground (arith, good), later, numbered))
    ]

-- What a runtime is that was rebuilt from the snapshot of a room and the events of its hand.
pub record Rebuilt (room : String) (events : List (DurableHandEvent Stored))
    (runtime : TableRuntime) : Type 0 where
  pub consistent : assert_invariants runtime.state ≡ ok tt
  pub of_room : runtime.state.table_id ≡ room
  pub numbered : Numbered 0 runtime.state.version events

ends_at-Numbered :
    (ids : List String) (events : List (DurableHandEvent Stored)) (version : ℕ)
    → ends_at events version (last_version ids events 0 0 events) ≡ true
    → Numbered 0 version events
ends_at-Numbered ids [] version h = tt
ends_at-Numbered ids (e ∷ es) version h =
    elim (Option-cases (last_version ids (e ∷ es) 0 0 (e ∷ es))) [
      | inl none_left ↦ ground (arith, none_left, h)
      | inr (prior, found) ↦
          let same : prior ≡ version = ground (arith, found, h) in
          subst (λ v. Numbered 0 v (e ∷ es)) same
            (last_version-Numbered ids (e ∷ es) 0 0 (e ∷ es) {version = prior} found).1
    ]

passes-ok : (state : TableState) → passes state ≡ true → assert_invariants state ≡ ok tt
passes-ok state h = ground (arith, h)

fits_together-Rebuilt :
    (room : String) (snapshot : DurableTableSnapshot Stored)
    (events : List (DurableHandEvent Stored)) (runtime : TableRuntime)
    → fits_together room snapshot events runtime.state ≡ true
    → Rebuilt room events runtime × (runtime.state.hand_id ≡ snapshot.hand_id)
unfolding fits_together
fits_together-Rebuilt room snapshot events runtime h =
    let named : (runtime.state.table_id === room) ≡ true = ground (arith, h) in
    let of_hand : (runtime.state.hand_id === snapshot.hand_id) ≡ true = ground (arith, h) in
    let checked : passes runtime.state ≡ true = ground (arith, h) in
    let version : runtime.state.version ≡ snapshot.version = ground (arith, h) in
    let ends : ends_at events snapshot.version
          (last_version (player_ids runtime.state.players) events 0 0 events)
        ≡ true =
      ground (arith, h) in
    (
      record {
        consistent = passes-ok runtime.state checked;
        of_room = (===_iff _ _).0 named;
        numbered = rw version (ends_at-Numbered _ events snapshot.version ends);
      },
      (===_iff _ _).0 of_hand,
    )

module _ {L : Type 0} {T : Type 0 → Type 0} (d : Database L T)
    (decrypt : String → Option TableState) where
  drain-not_ready :
      (room : String) (s : GatewayState L T) {s' : GatewayState L T} {runtime : TableRuntime}
      → drain d decrypt room s ≢ ok (s', ready runtime)
  drain-not_ready room s h =
      let (_, _, impossible) =
        >>=-eq-ok (or_store (set_room_draining d cashed_out room s.store)) _ h in
      ground (arith, impossible)

  recover_state-Rebuilt :
      (room : String) (snapshot : DurableTableSnapshot Stored) (state : TableState)
      (s : GatewayState L T) {s' : GatewayState L T} {runtime : TableRuntime}
      → recover_state d decrypt room snapshot (some state) s ≡ ok (s', ready runtime)
      → Rebuilt room (load_hand_events_after d runtime.state.hand_id 0 s.store) runtime
        × (s' ≡ with_runtime d decrypt room runtime s)
  recover_state-Rebuilt room snapshot state s {s'} {runtime} h =
      let events = load_hand_events_after d snapshot.hand_id 0 s.store in
      let made : TableRuntime = record {
        state = state;
        action_deadline_at = snapshot.action_deadline_at;
      } in
      elim (Bool-cases (fits_together room snapshot events state)) [
        | inr bad ↦
            let h' : drain d decrypt room s ≡ ok (s', ready runtime) = ground (arith, bad, h) in
            absurd (drain-not_ready room s h')
        | inl good ↦
            let same : runtime ≡ made = ground (arith, good, h) in
            let kept : s' ≡ with_runtime d decrypt room made s = ground (arith, good, h) in
            let (built, of_hand) = fits_together-Rebuilt room snapshot events made good in
            let built' : Rebuilt room (load_hand_events_after d made.state.hand_id 0 s.store) made =
              subst (λ id. Rebuilt room (load_hand_events_after d id 0 s.store) made) (sym of_hand)
                built in
            rw same (built', kept)
      ]

  -- If a room has no runtime in memory and `recoverResult` makes one from the database, then its state
  -- passes assertInvariants and is of that room; the stored events of its hand are numbered from one
  -- without a gap, none of a later version than the state; and the runtime is the room's from then on.
  pub recover_result-Rebuilt :
      (room : String) (s : GatewayState L T) {s' : GatewayState L T} {runtime : TableRuntime}
      → lookup room s.runtimes ≡ none
      → recover_result d decrypt room s ≡ ok (s', ready runtime)
      → Rebuilt room (load_hand_events_after d runtime.state.hand_id 0 s.store) runtime
        × (s' ≡ with_runtime d decrypt room runtime s)
  unfolding recover_result
  recover_result-Rebuilt room s {s'} {runtime} absent h =
      let h1 : recover_snapshot d decrypt room (load_latest_table_snapshot d room s.store) s
          ≡ ok (s', ready runtime) =
        subst (λ c. recover_cached d decrypt room c s ≡ ok (s', ready runtime)) absent h in
      elim (Option-cases (load_latest_table_snapshot d room s.store)) [
        | inl nothing ↦ ground (arith, nothing, h1)
        | inr (snapshot, found) ↦
            let h2 : recover_state d decrypt room snapshot (decrypted decrypt snapshot.state) s
                ≡ ok (s', ready runtime) =
              subst (λ c. recover_snapshot d decrypt room c s ≡ ok (s', ready runtime)) found h1 in
            elim (Option-cases (decrypted decrypt snapshot.state)) [
              | inl nothing ↦
                  let h3 : drain d decrypt room s ≡ ok (s', ready runtime) =
                    subst (λ c. recover_state d decrypt room snapshot c s ≡ ok (s', ready runtime))
                      nothing h2 in
                  absurd (drain-not_ready room s h3)
              | inr (state, opened) ↦ recover_state-Rebuilt room snapshot state s (
                  subst (λ c. recover_state d decrypt room snapshot c s ≡ ok (s', ready runtime))
                    opened h2)
            ]
      ]
