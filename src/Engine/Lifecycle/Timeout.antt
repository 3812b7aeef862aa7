-- ===== src/Engine/Lifecycle/Timeout.antt =====
-- lifecycle.ts: what a time-out leads to.
use porker_monorepo.Base.{
  ===_iff, ==_iff, Bool-cases, arith, false, inl, inr, ok, refl, some, subst, sym, true, ℕ, ◌+◌,
  ◌==◌, ◌≡◌,
}
use porker_monorepo.Engine.Commands.{player_checked, player_folded}
use porker_monorepo.Engine.Invariants.{assert_invariants}
use porker_monorepo.Engine.Invariants.Check.{assert_invariants_iff}
use porker_monorepo.Engine.Invariants.Facts.{Stocked}
use porker_monorepo.Engine.Lifecycle.{resolve_timeout, timeout_command}
use porker_monorepo.Engine.Players.{seat_of-finds, seat_of-player_of}
use porker_monorepo.Engine.Progress.{Transition}
use porker_monorepo.Engine.Reducer.{
  act, act_if_seated, after_plain, apply_command, apply_command_result, fold_player, same, seat_of,
  to_call,
}
use porker_monorepo.Engine.Reducer.Chips.{
  apply_command_result-total_chips, apply_command_result-version,
}
use porker_monorepo.Engine.Reducer.Invariant.{apply_command_result-assert_invariants}
use porker_monorepo.Engine.Table.{
  TablePlayer, TableState, is_active, is_complete, player_of, total_chips,
}

timeout-act :
    (s : TableState) (p : TablePlayer) (i : ℕ)
    → (t : Transition) × (act s p i (timeout_command s p).action ≡ ok t)
unfolding act
timeout-act s p i = elim (Bool-cases (p.street_committed == s.current_bet)) [
  | inl e ↦
      let free : (to_call s p == 0) ≡ true = ground (arith, e) in
      (after_plain s p i same (player_checked p.id), rw (e, free) refl)
  | inr e ↦ (after_plain s p i fold_player (player_folded p.id), rw e refl)
]

timeout-accepted :
    (s : TableState) (p : TablePlayer)
    → player_of s.actor_id s.players ≡ some p
    → is_active p ≡ true
    → is_complete s.phase ≡ false
    → (t : Transition) × (apply_command_result s (timeout_command s p) ≡ ok t)
unfolding apply_command_result act_if_seated
timeout-accepted s p found acts live =
    let (i, seat) = seat_of-player_of s.actor_id s.players found in
    let own : p.id ≡ s.actor_id = (seat_of-finds s.actor_id s.players seat).1 in
    let seat' : seat_of p.id s.players ≡ some (i, p) =
      subst (λ id. seat_of id s.players ≡ some (i, p)) (sym own) seat in
    let (t, acted) = timeout-act s p i in
    (
      t,
      ground (
        arith,
        (==_iff s.version s.version).1 refl,
        (===_iff p.id s.actor_id).1 own,
        seat',
        acts,
        live,
        acted,
      ),
    )

-- In a live hand that passes assertInvariants, with the cards to finish it, a time-out is resolved
-- without an error; the new state passes assertInvariants and holds the same chips, and its version
-- is one higher.
pub resolve_timeout-resolves :
    (s : TableState)
    → assert_invariants s ≡ ok tt
    → Stocked s
    → is_complete s.phase ≡ false
    → (t : Transition) × (resolve_timeout s ≡ ok t)
      × (assert_invariants t.state ≡ ok tt)
      × (total_chips t.state.players ≡ total_chips s.players)
      × (t.state.version ≡ s.version + 1)
unfolding resolve_timeout apply_command
resolve_timeout-resolves s v st live =
    let inv = (assert_invariants_iff s).0 v in
    let (p, found, acts) = inv.actor_ok in
    let active : is_active p ≡ true = ground (arith, acts, live) in
    let (t, accepted) = timeout-accepted s p found active live in
    (
      t,
      ground (arith, found, accepted),
      (apply_command_result-assert_invariants s _ accepted v st).0,
      apply_command_result-total_chips s _ accepted,
      apply_command_result-version s _ accepted,
    )
