-- ===== src/Engine/Reducer.antt =====
-- packages/poker-engine/src/reducer.ts: one command of a player, applied to the table.
pub mod Invariant
pub mod Middle
pub mod Chips
pub mod Plays
use porker_monorepo.Base.{
  Bool, List, Number, Option, Result, String, [], err, false, filter, find_index?, get_elem?, guard,
  if◌then◌else◌, includes, insert, leb, lookup, ltb, min, modify, none, not, ok, positive_integer,
  some, value_of, ℕ, ◌&&◌, ◌+◌, ◌-◌, ◌===◌, ◌==◌, ◌>>=◌, ◌>>◌, ◌||◌, ◌∷◌,
}
use porker_monorepo.Engine.Commands.{
  Action, GameEvent, TableCommand, bet, call, check, fold, player_bet, player_called,
  player_checked, player_folded, player_raised, raise,
}
use porker_monorepo.Engine.Progress.{Transition, actives, add_unique, finish_or_pass_action}
use porker_monorepo.Engine.Table.{
  TablePlayer, TableState, all_in, folded, is_active, is_complete, player_ids,
}

pub data CommandErrorCode : Type 0 where
  not_actor stale_version illegal_action invalid_amount : CommandErrorCode

-- `version` is the state's, for the client that has fallen behind.
pub record Rejection : Type 0 where
  pub code : CommandErrorCode
  pub version : ℕ

abbrev pub rejected {ℓ} : {A : Type ℓ} → TableState → CommandErrorCode → Result Rejection A
rejected state code = err (record { code = code; version = state.version })

-- The tests of `amountError`, in their order; a command that passes has this amount.
unfoldable pub bet_amount : TableState → TablePlayer → Number → Result CommandErrorCode ℕ
bet_amount state player amount = do
  let maximum = player.street_committed + player.stack
  guard (positive_integer amount) invalid_amount
  guard (leb (value_of amount) maximum) invalid_amount
  guard (state.current_bet == 0) illegal_action
  guard (leb state.minimum_raise (value_of amount) || value_of amount == maximum) invalid_amount
  ok (value_of amount)

unfoldable pub raise_amount : TableState → TablePlayer → Number → Result CommandErrorCode ℕ
raise_amount state player amount = do
  let maximum = player.street_committed + player.stack
  guard (positive_integer amount) invalid_amount
  guard (leb (value_of amount) maximum) invalid_amount
  guard (not (state.current_bet == 0) && ltb state.current_bet (value_of amount)) illegal_action
  guard (includes state.raise_rights player.id) illegal_action
  guard
      (leb state.minimum_raise (value_of amount - state.current_bet) || value_of amount == maximum)
      invalid_amount
  ok (value_of amount)

-- `Math.max(0, currentBet - streetCommitted)`.
abbrev pub to_call : TableState → TablePlayer → ℕ
to_call state player = state.current_bet - player.street_committed

abbrev pub fold_player : TablePlayer → TablePlayer
fold_player p = record p { status = folded }

abbrev pub pay : ℕ → TablePlayer → TablePlayer
pay paid p = record p {
  stack = p.stack - paid;
  street_committed = p.street_committed + paid;
  hand_committed = p.hand_committed + paid;
  status = if p.stack == paid then all_in else p.status;
}

-- The wager of `amount` in all: `paid` is `amount - streetCommitted`, which `bet_amount` and
-- `raise_amount` keep between 0 and the stack.
abbrev pub wager : ℕ → TablePlayer → TablePlayer
wager amount p =
    let paid = amount - p.street_committed in
    record p {
      stack = p.stack - paid;
      street_committed = amount;
      hand_committed = p.hand_committed + paid;
      status = if p.stack == paid then all_in else p.status;
    }

abbrev pub others_with_action : List TablePlayer → String → List String
others_with_action players id = player_ids (filter (λ p. is_active p && not (p.id === id)) players)

-- `raiseRights.filter((right) => right !== id)`.
abbrev pub without : List String → String → List String
without ids id = filter (λ other. not (other === id)) ids

-- Whether an incomplete raise leaves the right to raise with a player.
unfoldable pub keeps_right : List String → List (String × ℕ) → ℕ → ℕ → TablePlayer → Bool
keeps_right rights last_acted_bet current_bet minimum_raise p =
    includes rights p.id || elim (lookup p.id last_acted_bet) [
      | none ↦ false
      | some last_wager ↦ leb (last_wager + minimum_raise) current_bet
    ]

-- A full raise reopens the betting; an incomplete one reopens it for those it has passed by enough.
unfoldable pub after_wager :
    TableState → TablePlayer → ℕ → ℕ → Bool → Bool → ℕ → GameEvent → Transition
unfolding keeps_right add_unique
after_wager state player index amount full_raise incomplete minimum_raise event =
    let players = modify state.players index (wager amount) in
    let last_acted_bet = insert player.id amount state.last_acted_bet in
    let rights = without state.raise_rights player.id in
    finish_or_pass_action
      (record state {
        current_bet = amount;
        minimum_raise = if full_raise then minimum_raise else state.minimum_raise;
      })
      (record {
        players = players;
        acted_player_ids =
            if full_raise then player.id ∷ [] else add_unique state.acted_player_ids player.id;
        raise_rights =
            if full_raise
            then others_with_action players player.id
            else if incomplete
            then player_ids (
                filter (keeps_right rights last_acted_bet amount state.minimum_raise)
                  (actives players))
            else rights;
        last_acted_bet = last_acted_bet;
      })
      player.seat (event ∷ [])

-- A fold, a check or a call: the current bet stands.
unfoldable pub after_plain :
    TableState → TablePlayer → ℕ → (TablePlayer → TablePlayer) → GameEvent → Transition
unfolding add_unique
after_plain state player index change event =
    finish_or_pass_action state
      (record {
        players = modify state.players index change;
        acted_player_ids = add_unique state.acted_player_ids player.id;
        raise_rights = without state.raise_rights player.id;
        last_acted_bet = insert player.id state.current_bet state.last_acted_bet;
      })
      player.seat (event ∷ [])

abbrev pub or_rejected {ℓ} :
    {A : Type ℓ} → TableState → Result CommandErrorCode A → Result Rejection A
or_rejected state (ok a) = ok a
or_rejected state (err code) = rejected state code

abbrev pub same : TablePlayer → TablePlayer
same p = p

-- `applyCommandResult` once the acting player and his index are known.
unfoldable pub act : TableState → TablePlayer → ℕ → Action → Result Rejection Transition
act state player index fold =
    ok (after_plain state player index fold_player (player_folded player.id))
act state player index check =
    if to_call state player == 0
    then ok (after_plain state player index same (player_checked player.id))
    else rejected state illegal_action
act state player index call =
    let paid = min (to_call state player) player.stack in
    if to_call state player == 0
    then rejected state illegal_action
    else ok (after_plain state player index (pay paid) (player_called player.id paid))
act state player index (bet number) = do
  amount ← or_rejected state (bet_amount state player number)
  ok (
      after_wager state player index amount (leb state.minimum_raise amount) false amount
        (player_bet player.id amount))
act state player index (raise number) = do
  amount ← or_rejected state (raise_amount state player number)
  let raise_size = amount - state.current_bet
  let full_raise = leb state.minimum_raise raise_size
  ok (
      after_wager state player index amount full_raise (not full_raise) raise_size
        (player_raised player.id amount full_raise))

abbrev pub is_stale : Option ℕ → ℕ → Bool
is_stale none version = false
is_stale (some expected) version = not (expected == version)

abbrev pub with_index : ℕ → Option TablePlayer → Option (ℕ × TablePlayer)
with_index i none = none
with_index i (some p) = some (i, p)

-- `playerIndex`, and `state.players[playerIndex]`.
abbrev pub seat_of : String → List TablePlayer → Option (ℕ × TablePlayer)
seat_of id ps = elim (find_index? (λ p. p.id === id) ps) [
  | none ↦ none
  | some i ↦ with_index i (get_elem? ps i)
]

-- The rest of `applyCommandResult`, once the version and the actor are right.
unfoldable pub act_if_seated :
    TableState → TableCommand → Option (ℕ × TablePlayer) → Result Rejection Transition
act_if_seated state command none = rejected state illegal_action
act_if_seated state command (some (index, player)) =
    if not (is_active player) || is_complete state.phase
    then rejected state illegal_action
    else act state player index command.action

unfoldable pub apply_command_result : TableState → TableCommand → Result Rejection Transition
apply_command_result state command =
    if is_stale command.expected_version state.version
    then rejected state stale_version
    else if not (command.player_id === state.actor_id)
    then rejected state not_actor
    else act_if_seated state command (seat_of command.player_id state.players)

-- `applyCommand` throws the rejection as a `CommandError`, which is the same value here.
unfoldable pub apply_command : TableState → TableCommand → Result Rejection Transition
apply_command state command = apply_command_result state command
