-- ===== src/Engine/Reducer/Chips.antt =====
-- reducer.ts: the chips and the version after a command.
use porker_monorepo.Base.{
  List, [], ap, arith, get_elem?, ok, refl, some, sum_by-modify, ℕ, ◌+◌, ◌∙◌, ◌∷◌, ◌≡◌, ◌≤◌,
}
use porker_monorepo.Engine.Commands.{GameEvent, TableCommand}
use porker_monorepo.Engine.Legal.Offered.{within}
use porker_monorepo.Engine.Progress.{Acted, Transition, finish_or_pass_action, reset_street}
use porker_monorepo.Engine.Reducer.{after_plain, after_wager, apply_command_result, pay, wager}
use porker_monorepo.Engine.Reducer.Plays.{
  Play, apply_command_result-Accepted, calls, checks, folds, wagers,
}
use porker_monorepo.Engine.Table.{TablePlayer, TableState, chips, total_chips}

chips-pay : (n : ℕ) (p : TablePlayer) → n ≤ p.stack → chips (pay n p) ≡ chips p
chips-pay n p h = omega arith

chips-wager :
    (amount : ℕ) (p : TablePlayer)
    → amount ≤ p.street_committed + p.stack
    → chips (wager amount p) ≡ chips p
chips-wager amount p h = omega arith

total_chips-reset : (ps : List TablePlayer) → total_chips (reset_street ps) ≡ total_chips ps
unfolding reset_street
total_chips-reset [] = refl
total_chips-reset (p ∷ ps) = ap (λ n. chips p + n) (total_chips-reset ps)

finish_chips :
    (s : TableState) (a : Acted) (seat : ℕ) (es : List GameEvent)
    → total_chips (finish_or_pass_action s a seat es).state.players ≡ total_chips a.players
unfolding finish_or_pass_action
finish_chips s a seat es = ground (arith, total_chips-reset a.players)

finish_version :
    (s : TableState) (a : Acted) (seat : ℕ) (es : List GameEvent)
    → (finish_or_pass_action s a seat es).state.version ≡ s.version + 1
unfolding finish_or_pass_action
finish_version s a seat es = ground arith

plain_chips :
    (s : TableState) (p : TablePlayer) (i : ℕ) (change : TablePlayer → TablePlayer) (e : GameEvent)
    → get_elem? s.players i ≡ some p
    → chips (change p) ≡ chips p
    → total_chips (after_plain s p i change e).state.players ≡ total_chips s.players
unfolding after_plain
plain_chips s p i change e at k = finish_chips _ _ _ _ ∙ sum_by-modify chips change s.players i at k

Play-chips :
    (s : TableState) (p : TablePlayer) (i : ℕ) {t : Transition}
    → get_elem? s.players i ≡ some p
    → Play s p i t
    → total_chips t.state.players ≡ total_chips s.players
unfolding after_wager
Play-chips s p i at (folds e) = rw e (plain_chips s p i _ _ at refl)
Play-chips s p i at (checks z e) = rw e (plain_chips s p i _ _ at refl)
Play-chips s p i at (calls paid z m e) =
    rw e (plain_chips s p i _ _ at (chips-pay paid p (omega arith)))
Play-chips s p i at (wagers amount size full inc event above within pos e) = rw e (
    finish_chips _ _ _ _
    ∙ sum_by-modify chips (wager amount) s.players i at (chips-wager amount p within))

-- An accepted command leaves the sum of all stacks and hand commitments as it was.
pub apply_command_result-total_chips :
    (s : TableState) (c : TableCommand) {t : Transition}
    → apply_command_result s c ≡ ok t
    → total_chips t.state.players ≡ total_chips s.players
apply_command_result-total_chips s c h =
    let a = apply_command_result-Accepted s c h in Play-chips s a.player a.index a.at_index a.play

Play-version :
    (s : TableState) (p : TablePlayer) (i : ℕ) {t : Transition}
    → Play s p i t
    → t.state.version ≡ s.version + 1
unfolding after_plain after_wager
Play-version s p i (folds e) = rw e (finish_version _ _ _ _)
Play-version s p i (checks z e) = rw e (finish_version _ _ _ _)
Play-version s p i (calls paid z m e) = rw e (finish_version _ _ _ _)
Play-version s p i (wagers amount size full inc event above within pos e) =
    rw e (finish_version _ _ _ _)

-- An accepted command raises the version by one.
pub apply_command_result-version :
    (s : TableState) (c : TableCommand) {t : Transition}
    → apply_command_result s c ≡ ok t
    → t.state.version ≡ s.version + 1
apply_command_result-version s c h =
    let a = apply_command_result-Accepted s c h in Play-version s a.player a.index a.play
