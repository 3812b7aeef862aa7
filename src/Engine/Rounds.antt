-- ===== src/Engine/Rounds.antt =====
-- The engine from the start of a hand to its settlement: state.ts, reducer.ts, lifecycle.ts, pots.ts.
use porker_monorepo.Base.{
  Option-cases, Result, ap, arith, err, inl, inr, ok, ok-injective, ◌∙◌, ◌≡◌,
}
use porker_monorepo.Engine.Commands.{TableCommand}
use porker_monorepo.Engine.Hand.{StartHandOptions, start_hand}
use porker_monorepo.Engine.Hand.Opened.{start_hand-assert_invariants}
use porker_monorepo.Engine.Hand.Seats.{stacks_total}
use porker_monorepo.Engine.Invariants.{assert_invariants}
use porker_monorepo.Engine.Invariants.Check.{assert_invariants_iff}
use porker_monorepo.Engine.Invariants.Facts.{Stocked}
use porker_monorepo.Engine.Lifecycle.{or_refused, resolve_timeout, timeout_command}
use porker_monorepo.Engine.Progress.{Transition}
use porker_monorepo.Engine.Reducer.{Rejection, apply_command, apply_command_result}
use porker_monorepo.Engine.Reducer.Chips.{apply_command_result-total_chips}
use porker_monorepo.Engine.Reducer.Invariant.{apply_command_result-assert_invariants}
use porker_monorepo.Engine.Showdown.{settle_showdown}
use porker_monorepo.Engine.Showdown.Invariant.{
  settle_showdown-Stocked, settle_showdown-assert_invariants,
}
use porker_monorepo.Engine.Showdown.Settle.{settle_showdown-total_chips}
use porker_monorepo.Engine.Table.{TableState, player_of, total_chips}

-- The states that a hand goes through: it starts, takes commands and time-outs, and is settled.
pub data InHand (o : StartHandOptions) : TableState → Type 0 where
  started : (t : TableState) → start_hand o ≡ ok t → InHand o t
  commanded :
      (s : TableState) (c : TableCommand) (t : Transition)
      → InHand o s
      → apply_command_result s c ≡ ok t
      → InHand o t.state
  timed_out :
      (s : TableState) (t : Transition) → InHand o s → resolve_timeout s ≡ ok t → InHand o t.state
  paid : (s t : TableState) → InHand o s → settle_showdown s ≡ ok t → InHand o t

-- What every such state satisfies.
pub record Sound (o : StartHandOptions) (s : TableState) : Type 0 where
  pub consistent : assert_invariants s ≡ ok tt
  pub stocked : Stocked s
  pub chips_kept : total_chips s.players ≡ stacks_total o.players

or_refused-ok : (r : Result Rejection Transition) {t : Transition} → or_refused r ≡ ok t → r ≡ ok t
or_refused-ok (ok a) h = ap ok (ok-injective h)
or_refused-ok (err r) h = cc

-- A time-out that is resolved is a command of the actor.
resolve_timeout-command :
    (s : TableState) {t : Transition}
    → resolve_timeout s ≡ ok t
    → (c : TableCommand) × (apply_command_result s c ≡ ok t)
unfolding resolve_timeout apply_command
resolve_timeout-command s {t} h = elim (Option-cases (player_of s.actor_id s.players)) [
  | inl e ↦ absurd (ground (arith, e, h))
  | inr (p, e) ↦
      let h' : or_refused (apply_command_result s (timeout_command s p)) ≡ ok t =
        ground (arith, e, h) in
      (timeout_command s p, or_refused-ok _ h')
]

command-Sound :
    (o : StartHandOptions) (s : TableState) (c : TableCommand) {t : Transition}
    → apply_command_result s c ≡ ok t
    → Sound o s
    → Sound o t.state
command-Sound o s c {t} h k =
    let (consistent, stocked) =
      apply_command_result-assert_invariants s c {t = t} h k.consistent k.stocked in
    record {
      consistent = consistent;
      stocked = stocked;
      chips_kept = apply_command_result-total_chips s c {t = t} h ∙ k.chips_kept;
    }

settle-Sound :
    (o : StartHandOptions) (s : TableState) {t : TableState}
    → settle_showdown s ≡ ok t
    → Sound o s
    → Sound o t
settle-Sound o s {t} h k = record {
  consistent = (settle_showdown-assert_invariants s {t = t} h k.consistent).0;
  stocked =
      settle_showdown-Stocked s {t = t} h ((assert_invariants_iff s).0 k.consistent).core k.stocked;
  chips_kept =
      settle_showdown-total_chips s {t = t}
        ((assert_invariants_iff s).0 k.consistent).core.ids_unique h
      ∙ k.chips_kept;
}

-- In every state of a hand, from its start through any commands and time-outs to its settlement,
-- assertInvariants passes, the deck has the cards that the board still wants, and the chips on the
-- table are those that the players brought.
pub InHand-Sound : (o : StartHandOptions) (s : TableState) → InHand o s → Sound o s
InHand-Sound o s (started t h) =
    let (consistent, stocked, total) = start_hand-assert_invariants o {t = t} h in
    record { consistent = consistent; stocked = stocked; chips_kept = total }
InHand-Sound o s (commanded r c t k h) = command-Sound o r c {t = t} h (InHand-Sound o r k)
InHand-Sound o s (timed_out r t k h) =
    let (c, accepted) = resolve_timeout-command r {t = t} h in
    command-Sound o r c {t = t} accepted (InHand-Sound o r k)
InHand-Sound o s (paid r t k h) = settle-Sound o r {t = t} h (InHand-Sound o r k)
