-- ===== src/Engine/Advance.antt =====
-- packages/poker-engine/src/lifecycle.ts: the next hand of a table.
pub mod Chips
use porker_monorepo.Base.{
  Bool, List, Option, Result, String, [], any, drop, err, false, filter, guard, if◌then◌else◌,
  insert, leb, length, ltb, map, max_of, min, none, not, ok, some, suc, true, zero, ℕ, ◌&&◌, ◌*◌,
  ◌+◌, ◌-◌, ◌===◌, ◌==◌, ◌>>=◌, ◌>>◌, ◌∷◌,
}
use porker_monorepo.Engine.Cards.{Card, validate_deck}
use porker_monorepo.Engine.Error.{
  EngineError, advance_before_complete, advance_before_settled, deck_not_52_cards,
  funded_seats_out_of_range, hand_identity_missing, no_funded_player,
}
use porker_monorepo.Engine.Hand.{push_card}
use porker_monorepo.Engine.Invariants.{or_throw}
use porker_monorepo.Engine.Lifecycle.{has_committed, next_funded_player}
use porker_monorepo.Engine.Pots.{amount_of}
use porker_monorepo.Engine.Progress.{actives}
use porker_monorepo.Engine.Table.{
  TablePlayer, TableState, active, all_in, complete, folded, is_complete, player_ids, preflop,
  street_commitments,
}

pub record AdvanceHandOptions : Type 0 where
  pub hand_id : String
  pub deck : List Card

-- `nextFundedPlayer(…)!`: without a funded player the next read of a field throws.
abbrev pub funded_after : List TablePlayer → ℕ → Result EngineError TablePlayer
funded_after players seat = or_throw (next_funded_player players seat) no_funded_player

-- `forced.get(player.id) ?? 0`, the big blind being set after the small one.
unfoldable pub forced_for : TablePlayer → TablePlayer → ℕ → ℕ → String → ℕ
forced_for small_player big_player small big id =
    amount_of id (insert big_player.id big (insert small_player.id small []))

unfoldable pub next_hand_player : (String → ℕ) → TablePlayer → TablePlayer
next_hand_player forced p =
    let posted = min p.stack (forced p.id) in
    if p.stack == 0
    then record p { status = folded; street_committed = 0; hand_committed = 0 }
    else record p {
      stack = p.stack - posted;
      street_committed = posted;
      hand_committed = posted;
      status = if p.stack == posted then all_in else active;
    }

-- The rounds of the deal that are left: a card to each funded player in turn.
unfoldable pub deal_funded :
    ℕ
    → List TablePlayer
    → TablePlayer
    → List Card
    → List (String × List Card)
    → Result EngineError (List (String × List Card))
deal_funded zero players seat_player cards holes = ok holes
deal_funded (suc rounds) players seat_player [] holes = ok holes
deal_funded (suc rounds) players seat_player (card ∷ cards) holes = do
  next ← funded_after players seat_player.seat
  deal_funded rounds players next cards (push_card seat_player.id card holes)

abbrev pub funded_players : List TablePlayer → List TablePlayer
funded_players players = filter (λ p. ltb 0 p.stack) players

-- Nobody can bet: no active player, or one who has matched the bet.
unfoldable pub is_dealt_out : List TablePlayer → ℕ → Bool
is_dealt_out [] current_bet = true
is_dealt_out (p ∷ []) current_bet = p.street_committed == current_bet
is_dealt_out (p ∷ q ∷ ps) current_bet = false

-- The state that `advanceHand` returns, once the seats are known and the cards dealt.
unfoldable pub next_hand :
    TableState
    → AdvanceHandOptions
    → TablePlayer
    → TablePlayer
    → TablePlayer
    → TablePlayer
    → List Card
    → List (String × List Card)
    → TableState
unfolding forced_for next_hand_player is_dealt_out
next_hand state options button small_player big_player actor deck holes =
    let players =
      map (next_hand_player (forced_for small_player big_player state.small_blind state.big_blind))
        state.players in
    let current_bet = max_of (street_commitments players) in
    record state {
      hand_id = options.hand_id;
      phase = if is_dealt_out (actives players) current_bet then complete else preflop;
      version = state.version + 1;
      button_seat = button.seat;
      actor_id = actor.id;
      current_bet = current_bet;
      minimum_raise = state.big_blind;
      players = players;
      acted_player_ids = [];
      raise_rights = player_ids (actives players);
      last_acted_bet = [];
      deck = drop (2 * length (funded_players state.players)) deck;
      board = [];
      hole_cards = holes;
    }

abbrev pub is_heads_up : TableState → Bool
is_heads_up state = length (funded_players state.players) == 2

-- The part of `advanceHand` after its checks.
unfoldable pub deal_next :
    TableState → AdvanceHandOptions → List Card → Result EngineError TableState
unfolding deal_funded next_hand
deal_next state options deck = do
  let funded = funded_players state.players
  button ← funded_after state.players state.button_seat
  next ← funded_after state.players button.seat
  let small_player = if is_heads_up state then button else next
  big_player ← funded_after state.players small_player.seat
  holes ← deal_funded (2 * length funded) state.players next deck (map (λ p. (p.id, [])) funded)
  after_big ← funded_after state.players big_player.seat
  ok (
      next_hand state options button small_player big_player
        (if is_heads_up state then button else after_big) deck holes)

unfoldable pub advance_hand : TableState → Option AdvanceHandOptions → Result EngineError TableState
unfolding deal_next
advance_hand state none = do
  guard (is_complete state.phase) advance_before_complete
  guard (not (any has_committed state.players)) advance_before_settled
  err hand_identity_missing
advance_hand state (some options) = do
  guard (is_complete state.phase) advance_before_complete
  guard (not (any has_committed state.players)) advance_before_settled
  guard (not (options.hand_id === "")) hand_identity_missing
  guard (length options.deck == 52) deck_not_52_cards
  deck ← validate_deck options.deck
  let funded = funded_players state.players
  guard (leb 2 (length funded) && leb (length funded) 9) funded_seats_out_of_range
  deal_next state options deck
