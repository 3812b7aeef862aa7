-- ===== src/Engine/Invariants/Facts.antt =====
-- invariants.ts: the facts that assertInvariants checks, as a record.
use porker_monorepo.Base.{
  All, Bool, List, Unique, [], all, any, includes, length, max_of, not, ok, some, true, ℕ, ◌<◌,
  ◌===◌, ◌==◌, ◌||◌, ◌∷◌, ◌≡◌, ◌≤◌,
}
use porker_monorepo.Engine.Cards.{Card}
use porker_monorepo.Engine.Cards.Deck.{Distinct, IsConsistent}
use porker_monorepo.Engine.Invariants.{
  all_cards, check_holes, has_two_cards, is_card_backed, is_valid_board, metadata_ids, nat_eq,
  participated, seats,
}
use porker_monorepo.Engine.Progress.{can_act}
use porker_monorepo.Engine.Table.{
  TablePlayer, TableState, is_active, is_all_in, is_complete, player_ids, player_of,
  street_commitments,
}

-- A player's commitments and chips agree with his status.
pub record PlayerOk (p : TablePlayer) : Type 0 where
  pub street : p.street_committed ≤ p.hand_committed
  pub active_funded : is_active p ≡ true → 0 < p.stack
  pub all_in_spent : is_all_in p ≡ true → p.stack ≡ 0

-- The actor sits at the table, and can act while the hand is live.
abbrev pub ActorOk : TableState → Type 0
ActorOk s =
    (p : TablePlayer) × (player_of s.actor_id s.players ≡ some p)
    × ((is_complete s.phase || can_act p) ≡ true)

-- Who was dealt in holds two cards.
abbrev pub dealt_in : TableState → Bool
dealt_in s =
    not (is_card_backed s)
    || all (λ p. not (participated p) || has_two_cards s.hole_cards p.id) s.players

-- All that is checked but the actor.
pub record Core (s : TableState) : Type 0 where
  pub at_least_two : 2 ≤ length s.players
  pub at_most_nine : length s.players ≤ 9
  pub ids_unique : Unique ◌===◌ (player_ids s.players)
  pub seats_unique : Unique nat_eq (seats s.players)
  pub button : any (λ p. p.seat == s.button_seat) s.players ≡ true
  pub small_positive : 0 < s.small_blind
  pub blinds_rise : s.small_blind < s.big_blind
  pub raise_positive : 0 < s.minimum_raise
  pub players_ok : All PlayerOk s.players
  pub bet_covers : max_of (street_commitments s.players) ≤ s.current_bet
  pub owners_known : all (includes (player_ids s.players)) (metadata_ids s) ≡ true
  pub board_fits : is_valid_board s.phase (length s.board) ≡ true
  pub holes_ok : check_holes (player_ids s.players) s.hole_cards ≡ ok tt
  pub participants_dealt : dealt_in s ≡ true
  pub cards_consistent : All IsConsistent (all_cards s)
  pub cards_distinct : Distinct (all_cards s)

pub record Inv (s : TableState) : Type 0 where
  pub core : Core s
  pub open core use *
  pub actor_ok : ActorOk s

-- The cards that a hand still takes from the deck: one burned and one dealt for each street, three
-- dealt on the flop.
abbrev pub cards_to_come : List Card → ℕ
cards_to_come [] = 8
cards_to_come (a ∷ b ∷ c ∷ []) = 4
cards_to_come (a ∷ b ∷ c ∷ d ∷ []) = 2
cards_to_come cards = 0

-- The deck has the cards that the board still wants.
abbrev pub Stocked : TableState → Type 0
Stocked s = cards_to_come s.board ≤ length s.deck
