-- ===== src/Engine/Reducer/Plays.antt =====
-- reducer.ts: the moves of an accepted command, the view through which the proofs about
-- `applyCommandResult` go.
use porker_monorepo.Base.{
  ===_iff, ==_iff, Bool, Bool-cases, Number, Option, Result-cases, arith, false, get_elem?, inl,
  inr, leb, min, none, not, ok, refl, some, true, ℕ, ◌+◌, ◌-◌, ◌<◌, ◌==◌, ◌≡◌, ◌≤◌,
}
use porker_monorepo.Engine.Commands.{
  Action, GameEvent, TableCommand, bet, call, check, fold, player_bet, player_called,
  player_checked, player_folded, player_raised, raise,
}
use porker_monorepo.Engine.Players.{seat_of-finds}
use porker_monorepo.Engine.Progress.{Transition}
use porker_monorepo.Engine.Reducer.{
  act, act_if_seated, after_plain, after_wager, apply_command_result, bet_amount, fold_player,
  is_stale, pay, raise_amount, same, seat_of, to_call,
}
use porker_monorepo.Engine.Table.{TablePlayer, TableState, is_active, is_complete, player_of}

-- A move of `p`, the player at index `i`, that leads to `t`.
pub data Play (s : TableState) (p : TablePlayer) (i : ℕ) (t : Transition) : Type 0 where
  folds : t ≡ after_plain s p i fold_player (player_folded p.id) → Play s p i t
  checks : to_call s p ≡ 0 → t ≡ after_plain s p i same (player_checked p.id) → Play s p i t
  calls :
      (paid : ℕ)
      → 0 < to_call s p
      → paid ≡ min (to_call s p) p.stack
      → t ≡ after_plain s p i (pay paid) (player_called p.id paid)
      → Play s p i t
  wagers :
      (amount raise_size : ℕ) (full incomplete : Bool) (event : GameEvent)
      → s.current_bet < amount
      → amount ≤ p.street_committed + p.stack
      → 0 < raise_size
      → t ≡ after_wager s p i amount full incomplete raise_size event
      → Play s p i t

-- An accepted command: the actor, whose turn it is, and his move.
pub record Accepted (s : TableState) (c : TableCommand) (t : Transition) : Type 0 where
  pub player : TablePlayer
  pub index : ℕ
  pub fresh : is_stale c.expected_version s.version ≡ false
  pub is_actor : c.player_id ≡ s.actor_id
  pub at_index : get_elem? s.players index ≡ some player
  pub own_id : player.id ≡ c.player_id
  pub found : player_of c.player_id s.players ≡ some player
  pub acts : is_active player ≡ true
  pub live : is_complete s.phase ≡ false
  pub acted : act s player index c.action ≡ ok t
  pub play : Play s player index t

bet_amount-ok :
    (s : TableState) (p : TablePlayer) (number : Number) {amount : ℕ}
    → bet_amount s p number ≡ ok amount
    → (s.current_bet ≡ 0) × (0 < amount) × (amount ≤ p.street_committed + p.stack)
unfolding bet_amount
bet_amount-ok s p number h = ground arith

raise_amount-ok :
    (s : TableState) (p : TablePlayer) (number : Number) {amount : ℕ}
    → raise_amount s p number ≡ ok amount
    → (s.current_bet < amount) × (amount ≤ p.street_committed + p.stack)
unfolding raise_amount
raise_amount-ok s p number h = ground arith

act-Play :
    (s : TableState) (p : TablePlayer) (i : ℕ) (a : Action) {t : Transition}
    → act s p i a ≡ ok t
    → Play s p i t
unfolding act
act-Play s p i fold h = folds (ground arith)
act-Play s p i check h = elim (Bool-cases (to_call s p == 0)) [
  | inl e ↦ checks ((==_iff _ _).0 e) (ground (arith, e))
  | inr e ↦ absurd (ground (arith, e))
]
act-Play s p i call h = elim (Bool-cases (to_call s p == 0)) [
  | inl e ↦ absurd (ground (arith, e))
  | inr e ↦ calls (min (to_call s p) p.stack) (ground (arith, e)) refl (ground (arith, e))
]
act-Play s p i (bet number) h = elim (Result-cases (bet_amount s p number)) [
  | inl (amount, e) ↦
      let (none_yet, positive, within) = bet_amount-ok s p number e in
      wagers amount amount (leb s.minimum_raise amount) false (player_bet p.id amount) (omega arith)
        within positive (ground (arith, e))
  | inr (code, e) ↦ absurd (ground (arith, e))
]
act-Play s p i (raise number) h = elim (Result-cases (raise_amount s p number)) [
  | inl (amount, e) ↦
      let (above, within) = raise_amount-ok s p number e in
      let full = leb s.minimum_raise (amount - s.current_bet) in
      wagers amount (amount - s.current_bet) full (not full) (player_raised p.id amount full) above
        within (omega arith) (ground (arith, e))
  | inr (code, e) ↦ absurd (ground (arith, e))
]

act_if_seated-acts :
    (s : TableState) (c : TableCommand) (o : Option (ℕ × TablePlayer)) {t : Transition}
    → act_if_seated s c o ≡ ok t
    → (index : ℕ) × (player : TablePlayer) × (o ≡ some (index, player))
      × (is_active player ≡ true)
      × (is_complete s.phase ≡ false)
      × (act s player index c.action ≡ ok t)
unfolding act_if_seated
act_if_seated-acts s c none h = cc
act_if_seated-acts s c (some (index, player)) h =
    (index, player, refl, ground arith, ground arith, ground arith)

-- An accepted command is fresh and comes from the actor, who is active, in a live hand; and its result
-- is that of a fold, a check with nothing to call, a call of what is due or left, or a wager above the
-- current bet that his chips cover.
pub apply_command_result-Accepted :
    (s : TableState) (c : TableCommand) {t : Transition}
    → apply_command_result s c ≡ ok t
    → Accepted s c t
unfolding apply_command_result
apply_command_result-Accepted s c {t} h =
    let (index, player, seat, acts, live, acted) =
      act_if_seated-acts s c (seat_of c.player_id s.players) {t = t} (ground arith) in
    let (at, own, found) = seat_of-finds c.player_id s.players seat in
    record {
      player = player;
      index = index;
      fresh = ground arith;
      is_actor = ground (arith, ===_iff c.player_id s.actor_id);
      at_index = at;
      own_id = own;
      found = found;
      acts = acts;
      live = live;
      acted = acted;
      play = act-Play s player index c.action acted;
    }
