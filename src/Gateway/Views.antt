-- ===== src/Gateway/Views.antt =====
-- apps/poker-api/src/game/game.gateway.ts: what a player gets to see.
use porker_monorepo.Base.{List, Option, String, [], lookup, ◌≡◌}
use porker_monorepo.Engine.Cards.{Card}
use porker_monorepo.Engine.Legal.{legal_actions}
use porker_monorepo.Engine.Table.{TableState}
use porker_monorepo.Gateway.{Stored, own_cards, player_view}
use porker_monorepo.Ledger.Integers.{ℤ}

-- A player's view of a table does not depend on the deck, nor on the cards of the other players: two
-- tables that differ only in these look the same.
pub player_view-hides :
    (state : TableState) (user : String) (min_buy_in : ℤ) (settlement : Option Stored)
    (deck : List Card) (holes : List (String × List Card))
    → lookup user holes ≡ lookup user state.hole_cards
    → player_view (record state { deck = deck; hole_cards = holes }) user min_buy_in settlement
      ≡ player_view state user min_buy_in settlement
unfolding player_view legal_actions
player_view-hides state user min_buy_in settlement deck holes own = λ i. record {
  table = record state { deck = []; hole_cards = own_cards user (own i) };
  legal_actions_for = legal_actions state user;
  min_buy_in = min_buy_in;
  settlement = settlement;
}
