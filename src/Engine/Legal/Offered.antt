-- ===== src/Engine/Legal/Offered.antt =====
-- reducer.ts: `legalActions` against `applyCommand`.
use porker_monorepo.Base.{
  ===_iff, Bool, Bool-cases, List, Number, Option-cases, Result-cases, String, any, arith, err,
  false, fraction, inl, inr, leb, ltb, minus, nat, ok, refl, some, true, value_of, ℕ, ◌&&◌, ◌++◌,
  ◌<◌, ◌===◌, ◌≡◌, ◌⊎◌,
}
use porker_monorepo.Engine.Commands.{
  Action, LegalAction, TableCommand, bet, call, check, fold, may_bet, may_call, may_check, may_fold,
  may_raise, raise,
}
use porker_monorepo.Engine.Legal.{answer_actions, legal_actions, wager_actions}
use porker_monorepo.Engine.Players.{seat_of-player_of}
use porker_monorepo.Engine.Progress.{Transition}
use porker_monorepo.Engine.Reducer.{
  Rejection, act, act_if_seated, apply_command_result, bet_amount, is_stale, raise_amount, to_call,
}
use porker_monorepo.Engine.Reducer.Plays.{apply_command_result-Accepted}
use porker_monorepo.Engine.Table.{TablePlayer, TableState, is_active, is_complete, player_of}

-- What an entry of the menu covers: an amount within its bounds, for a bet or a raise.
abbrev pub within : ℕ → ℕ → Number → Bool
within low high (nat n) = leb low n && leb n high
within low high (minus n) = false
within low high fraction = false

abbrev pub covers : Action → LegalAction → Bool
covers fold may_fold = true
covers check may_check = true
covers call (may_call n) = true
covers (bet amount) (may_bet low high) = within low high amount
covers (raise amount) (may_raise low high) = within low high amount
covers a l = false

abbrev pub is_offered : TableState → String → Action → Bool
is_offered s id a = any (covers a) (legal_actions s id)

abbrev menu : TableState → TablePlayer → List LegalAction
menu s p = answer_actions s p ++ wager_actions s p

-- What `legalActions` has tested before it fills the menu.
record Offer (s : TableState) (id : String) (a : Action) : Type 0 where
  player : TablePlayer
  is_actor : (id === s.actor_id) ≡ true
  live : is_complete s.phase ≡ false
  found : player_of id s.players ≡ some player
  acts : is_active player ≡ true
  on_menu : any (covers a) (menu s player) ≡ true

is_offered-Offer :
    (s : TableState) (id : String) (a : Action) → is_offered s id a ≡ true → Offer s id a
unfolding legal_actions
is_offered-Offer s id a h = elim (Option-cases (player_of id s.players)) [
  | inl e ↦ absurd (ground (arith, e))
  | inr (p, e) ↦ record {
    player = p;
    is_actor = ground (arith, e);
    live = ground (arith, e);
    found = e;
    acts = ground (arith, e);
    on_menu = ground (arith, e);
  }
]

Offer-is_offered :
    (s : TableState) (id : String) (a : Action) → Offer s id a → is_offered s id a ≡ true
unfolding legal_actions
Offer-is_offered s id a o = ground (arith, o.is_actor, o.live, o.found, o.acts, o.on_menu)

bet-accepted :
    (s : TableState) (p : TablePlayer) (n : Number)
    → 0 < s.minimum_raise
    → any (covers (bet n)) (menu s p) ≡ true
    → bet_amount s p n ≡ ok (value_of n)
unfolding bet_amount
bet-accepted s p (nat n) pos h = ground arith
bet-accepted s p (minus n) pos h = absurd (ground arith)
bet-accepted s p fraction pos h = absurd (ground arith)

raise-accepted :
    (s : TableState) (p : TablePlayer) (n : Number)
    → 0 < s.minimum_raise
    → any (covers (raise n)) (menu s p) ≡ true
    → raise_amount s p n ≡ ok (value_of n)
unfolding raise_amount
raise-accepted s p (nat n) pos h = ground arith
raise-accepted s p (minus n) pos h = absurd (ground arith)
raise-accepted s p fraction pos h = absurd (ground arith)

act-not-err :
    (s : TableState) (p : TablePlayer) (i : ℕ) (a : Action) {r : Rejection}
    → 0 < s.minimum_raise
    → any (covers a) (menu s p) ≡ true
    → act s p i a ≡ err r
    → ⊥
unfolding act
act-not-err s p i fold pos h e = cc
act-not-err s p i check pos h e = ground arith
act-not-err s p i call pos h e = ground arith
act-not-err s p i (bet n) pos h e = ground (arith, bet-accepted s p n pos h)
act-not-err s p i (raise n) pos h e = ground (arith, raise-accepted s p n pos h)

act-offered :
    (s : TableState) (p : TablePlayer) (i : ℕ) (a : Action)
    → 0 < s.minimum_raise
    → any (covers a) (menu s p) ≡ true
    → (t : Transition) × (act s p i a ≡ ok t)
act-offered s p i a pos h = elim (Result-cases (act s p i a)) [
  | inl accepted ↦ accepted
  | inr (r, e) ↦ absurd (act-not-err s p i a pos h e)
]

-- A fold where checking is free: the one command that is accepted and not offered.
abbrev pub FreeFold : TableState → String → Action → Type 0
FreeFold s id a =
    (a ≡ fold) × (p : TablePlayer) × (player_of id s.players ≡ some p) × (to_call s p ≡ 0)

bet-menu :
    (s : TableState) (p : TablePlayer) (n : Number) {amount : ℕ}
    → bet_amount s p n ≡ ok amount
    → any (covers (bet n)) (menu s p) ≡ true
unfolding bet_amount
bet-menu s p (nat n) h = ground arith
bet-menu s p (minus n) h = absurd (ground arith)
bet-menu s p fraction h = absurd (ground arith)

raise-menu :
    (s : TableState) (p : TablePlayer) (n : Number) {amount : ℕ}
    → raise_amount s p n ≡ ok amount
    → any (covers (raise n)) (menu s p) ≡ true
unfolding raise_amount
raise-menu s p (nat n) h = ground arith
raise-menu s p (minus n) h = absurd (ground arith)
raise-menu s p fraction h = absurd (ground arith)

act-menu :
    (s : TableState) (p : TablePlayer) (i : ℕ) (a : Action) {t : Transition}
    → act s p i a ≡ ok t
    → (any (covers a) (menu s p) ≡ true) ⊎ ((a ≡ fold) × (to_call s p ≡ 0))
unfolding act
act-menu s p i fold h = elim (Bool-cases (ltb 0 (to_call s p))) [
  | inl e ↦ inl (rw e refl)
  | inr e ↦ inr (refl, ground (arith, e))
]
act-menu s p i check h = inl (ground arith)
act-menu s p i call h = inl (ground arith)
act-menu s p i (bet n) h = elim (Result-cases (bet_amount s p n)) [
  | inl (amount, e) ↦ inl (bet-menu s p n {amount = amount} e)
  | inr (code, e) ↦ absurd (ground (arith, e))
]
act-menu s p i (raise n) h = elim (Result-cases (raise_amount s p n)) [
  | inl (amount, e) ↦ inl (raise-menu s p n {amount = amount} e)
  | inr (code, e) ↦ absurd (ground (arith, e))
]

-- With a positive minimum raise, what `legalActions` offers is accepted, whatever amount within the
-- bounds is chosen, if the command names the current version or none.
pub is_offered-accepted :
    (s : TableState) (c : TableCommand)
    → 0 < s.minimum_raise
    → is_stale c.expected_version s.version ≡ false
    → is_offered s c.player_id c.action ≡ true
    → (t : Transition) × (apply_command_result s c ≡ ok t)
unfolding apply_command_result act_if_seated
is_offered-accepted s c pos fresh h =
    let o = is_offered-Offer s c.player_id c.action h in
    let (i, seat) = seat_of-player_of c.player_id s.players o.found in
    let (t, acted) = act-offered s o.player i c.action pos o.on_menu in
    (t, ground (arith, fresh, o.is_actor, seat, o.acts, o.live, acted))

-- What `applyCommandResult` accepts, `legalActions` offers, but for a fold where checking is free.
pub accepted-is_offered :
    (s : TableState) (c : TableCommand) {t : Transition}
    → apply_command_result s c ≡ ok t
    → (is_offered s c.player_id c.action ≡ true) ⊎ FreeFold s c.player_id c.action
accepted-is_offered s c h =
    let a = apply_command_result-Accepted s c h in
    elim (act-menu s a.player a.index c.action a.acted) [
      | inl menu_ok ↦ inl (
          Offer-is_offered s c.player_id c.action (record {
            player = a.player;
            is_actor = (===_iff c.player_id s.actor_id).1 a.is_actor;
            live = a.live;
            found = a.found;
            acts = a.acts;
            on_menu = menu_ok;
          }))
      | inr (is_fold, free) ↦ inr (is_fold, a.player, a.found, free)
    ]
