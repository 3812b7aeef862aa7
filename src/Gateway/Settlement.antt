-- ===== src/Gateway/Settlement.antt =====
-- apps/poker-api/src/game/game.gateway.ts: what a hand that is over pays out.
use porker_monorepo.Base.{
  ===_iff, ===_refl, >>=-eq-ok, All, Bool-cases, List, String, Unique, [], arith, count_by, false,
  inl, inr, map, ok, ok-injective, refl, subst, sum_by, sym, true, ℕ, ◌++◌, ◌===◌, ◌>>=◌, ◌>>◌, ◌∷◌,
  ◌≡◌,
}
use porker_monorepo.Engine.Commands.{GameEvent}
use porker_monorepo.Engine.Invariants.{assert_invariants}
use porker_monorepo.Engine.Invariants.Check.{assert_invariants_iff}
use porker_monorepo.Engine.Invariants.Facts.{Stocked}
use porker_monorepo.Engine.Pots.Payouts.{received, received-dict_total}
use porker_monorepo.Engine.Showdown.{paid_out, pot_total, settle_showdown, settled}
use porker_monorepo.Engine.Showdown.Invariant.{
  pot_total-paid_out, settle_showdown-Stocked, settle_showdown-assert_invariants,
}
use porker_monorepo.Engine.Showdown.Settle.{
  Booked-weaken, settle_showdown-parts, settle_showdown-total_chips,
}
use porker_monorepo.Engine.Table.{TablePlayer, TableState, is_complete, player_ids, total_chips}
use porker_monorepo.Gateway.{
  Finalized, awards_of, game, settle_if_complete, settlement_event, stack_before,
}

-- The id finds this player among those before.
abbrev Stands : List TablePlayer → TablePlayer → Type 0
Stands before p = stack_before p.id before ≡ p.stack

Stands-cons :
    (x : TablePlayer) (before qs : List TablePlayer)
    → count_by (λ b. b === x.id) (player_ids qs) ≡ 0
    → All (Stands before) qs
    → All (Stands (x ∷ before)) qs
Stands-cons x before [] absent h = tt
Stands-cons x before (q ∷ qs) absent h =
    let other : (x.id === q.id) ≡ false =
      ground (arith, absent, ===_iff x.id q.id, ===_refl q.id) in
    (ground (arith, other, h.0), Stands-cons x before qs (ground (arith, absent)) h.1)

Unique-Stands : (ps : List TablePlayer) → Unique ◌===◌ (player_ids ps) → All (Stands ps) ps
Unique-Stands [] u = tt
Unique-Stands (p ∷ ps) u =
    let self : (p.id === p.id) ≡ true = ===_refl p.id in
    (
      ground (arith, self),
      Stands-cons p ps ps (ground (arith, u p.id, self))
          (Unique-Stands ps (λ a. ground (arith, u a))),
    )

abbrev pub award_total : List (String × ℕ) → ℕ
award_total awards = sum_by (λ e. e.1) awards

awards-paid_out :
    (m : List (String × ℕ)) (before qs : List TablePlayer)
    → All (Stands before) qs
    → award_total (awards_of before (map (paid_out m) qs)) ≡ received m qs
unfolding awards_of
awards-paid_out m before [] h = refl
awards-paid_out m before (q ∷ qs) h = ground (arith, h.0, awards-paid_out m before qs h.1)

-- If a hand is over, its players' ids are unique, and `settleIfComplete` returns, then the event that
-- it adds announces the pots it was given, and awards that add up to them; nothing is left in the
-- pots, and the chips on the table stay the same.
pub settle_if_complete-awards :
    (s : TableState) (events : List GameEvent) {f : Finalized}
    → Unique ◌===◌ (player_ids s.players)
    → is_complete s.phase ≡ true
    → settle_if_complete s events ≡ ok f
    → (f.events ≡ map game events ++ settlement_event s f.state ∷ [])
      × (award_total (awards_of s.players f.state.players) ≡ pot_total s.players)
      × (pot_total f.state.players ≡ 0)
      × (total_chips f.state.players ≡ total_chips s.players)
unfolding settle_if_complete settled
settle_if_complete-awards s events {f} u over h =
    let h' : (do
      paid_state ← settle_showdown s
      assert_invariants paid_state
      ok (record {
        state = paid_state;
        events = map game events ++ settlement_event s paid_state ∷ [];
      }))
        ≡ ok f =
      ground (arith, h, over) in
    let (t, paying, h1) = >>=-eq-ok (settle_showdown s) _ h' in
    let (_, _, h2) = >>=-eq-ok (assert_invariants t) _ h1 in
    let same : f ≡ record { state = t; events = map game events ++ settlement_event s t ∷ [] } =
      sym (ok-injective h2) in
    let (board, deck, m, _, made, booked, total) = settle_showdown-parts s paying in
    let paid : award_total (awards_of s.players t.players) ≡ pot_total s.players = rw made (
      omega (
        arith,
        awards-paid_out m s.players s.players (Unique-Stands s.players u),
        received-dict_total s.players m u (Booked-weaken s.players m booked),
        total,
      )) in
    rw same
      (refl, paid, rw made (pot_total-paid_out m s.players), settle_showdown-total_chips s u paying)

-- What an action keeps of a table.
pub record Kept (before after : TableState) : Type 0 where
  pub consistent : assert_invariants after ≡ ok tt
  pub stocked : Stocked after
  pub chips : total_chips after.players ≡ total_chips before.players

pub settle_if_complete-Kept :
    (s : TableState) (events : List GameEvent) {f : Finalized}
    → assert_invariants s ≡ ok tt
    → Stocked s
    → settle_if_complete s events ≡ ok f
    → Kept s f.state
unfolding settle_if_complete
settle_if_complete-Kept s events {f} v st h = elim (Bool-cases (is_complete s.phase)) [
  | inr e ↦
      let same : s ≡ f.state = ground (arith, h, e) in
      subst (Kept s) same (record { consistent = v; stocked = st; chips = refl })
  | inl e ↦
      let h' : (do
        paid_state ← settle_showdown s
        assert_invariants paid_state
        ok (record {
          state = paid_state;
          events = map game events ++ settlement_event s paid_state ∷ [];
        }))
          ≡ ok f =
        ground (arith, h, e) in
      let (t, paying, h1) = >>=-eq-ok (settle_showdown s) _ h' in
      let (_, _, h2) = >>=-eq-ok (assert_invariants t) _ h1 in
      let same : t ≡ f.state = ground (arith, h2) in
      let core = ((assert_invariants_iff s).0 v).core in
      subst (Kept s) same (record {
        consistent = (settle_showdown-assert_invariants s paying v).0;
        stocked = settle_showdown-Stocked s paying core st;
        chips = settle_showdown-total_chips s core.ids_unique paying;
      })
]
