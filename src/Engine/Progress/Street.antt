-- ===== src/Engine/Progress/Street.antt =====
-- reducer.ts: the cards of the next street.
use porker_monorepo.Base.{
  All, Bool-cases, List, [], arith, false, inl, inr, is_empty, length, refl, true, ◌++◌, ◌||◌, ◌∷◌,
  ◌≡◌, ◌≤◌,
}
use porker_monorepo.Engine.Cards.{Card}
use porker_monorepo.Engine.Cards.Deal.{dealt-cards}
use porker_monorepo.Engine.Cards.Deck.{Distinct, IsConsistent}
use porker_monorepo.Engine.Invariants.{all_cards, held_cards, is_valid_board}
use porker_monorepo.Engine.Invariants.Facts.{cards_to_come}
use porker_monorepo.Engine.Progress.{deal_board, deal_street, is_flop, next_phase}
use porker_monorepo.Engine.Table.{
  BettingPhase, TableState, complete, flop, is_complete, preflop, river, turn,
}

-- If the board fits a street that is not `complete`, and the deck has the cards still to come, then
-- after `dealBoard` for the next street the board fits it, and the deck has the cards still to come.
pub deal_street-fits :
    (phase : BettingPhase) (board deck : List Card)
    → is_complete phase ≡ false
    → is_valid_board phase (length board) ≡ true
    → cards_to_come board ≤ length deck
    → (is_valid_board (next_phase phase) (length ((deal_street (next_phase phase) board deck).0))
        ≡ true)
      × (cards_to_come ((deal_street (next_phase phase) board deck).0)
          ≤ length ((deal_street (next_phase phase) board deck).1))
unfolding next_phase deal_street
deal_street-fits preflop [] (w ∷ x ∷ y ∷ z ∷ ds) l v st = (refl, omega arith)
deal_street-fits preflop [] [] l v st = absurd (omega arith)
deal_street-fits preflop [] (w ∷ []) l v st = absurd (omega arith)
deal_street-fits preflop [] (w ∷ x ∷ []) l v st = absurd (omega arith)
deal_street-fits preflop [] (w ∷ x ∷ y ∷ []) l v st = absurd (omega arith)
deal_street-fits preflop (a ∷ bs) deck l v st = absurd (ground arith)
deal_street-fits flop (a ∷ b ∷ c ∷ []) (x ∷ y ∷ ds) l v st = (refl, omega arith)
deal_street-fits flop (a ∷ b ∷ c ∷ []) [] l v st = absurd (omega arith)
deal_street-fits flop (a ∷ b ∷ c ∷ []) (x ∷ []) l v st = absurd (omega arith)
deal_street-fits flop [] deck l v st = absurd (ground arith)
deal_street-fits flop (a ∷ []) deck l v st = absurd (ground arith)
deal_street-fits flop (a ∷ b ∷ []) deck l v st = absurd (ground arith)
deal_street-fits flop (a ∷ b ∷ c ∷ d ∷ bs) deck l v st = absurd (ground arith)
deal_street-fits turn (a ∷ b ∷ c ∷ d ∷ []) (x ∷ y ∷ ds) l v st = (refl, omega arith)
deal_street-fits turn (a ∷ b ∷ c ∷ d ∷ []) [] l v st = absurd (omega arith)
deal_street-fits turn (a ∷ b ∷ c ∷ d ∷ []) (x ∷ []) l v st = absurd (omega arith)
deal_street-fits turn [] deck l v st = absurd (ground arith)
deal_street-fits turn (a ∷ []) deck l v st = absurd (ground arith)
deal_street-fits turn (a ∷ b ∷ []) deck l v st = absurd (ground arith)
deal_street-fits turn (a ∷ b ∷ c ∷ []) deck l v st = absurd (ground arith)
deal_street-fits turn (a ∷ b ∷ c ∷ d ∷ e ∷ bs) deck l v st = absurd (ground arith)
deal_street-fits river (a ∷ b ∷ c ∷ d ∷ e ∷ []) deck l v st = (ground arith, ground arith)
deal_street-fits river [] deck l v st = absurd (ground arith)
deal_street-fits river (a ∷ []) deck l v st = absurd (ground arith)
deal_street-fits river (a ∷ b ∷ []) deck l v st = absurd (ground arith)
deal_street-fits river (a ∷ b ∷ c ∷ []) deck l v st = absurd (ground arith)
deal_street-fits river (a ∷ b ∷ c ∷ d ∷ []) deck l v st = absurd (ground arith)
deal_street-fits river (a ∷ b ∷ c ∷ d ∷ e ∷ f ∷ bs) deck l v st = absurd (ground arith)
deal_street-fits complete board deck l v st = absurd (ground arith)

pub deal_board-cards :
    (s : TableState) (phase : BettingPhase)
    → All IsConsistent (all_cards s)
    → Distinct (all_cards s)
    → All IsConsistent
        ((deal_board s phase).1 ++ ((deal_board s phase).0 ++ held_cards s.hole_cards))
      × Distinct ((deal_board s phase).1 ++ ((deal_board s phase).0 ++ held_cards s.hole_cards))
unfolding deal_board deal_street
deal_board-cards s phase k d = elim (Bool-cases (is_empty s.deck || is_complete phase)) [
  | inl e ↦ rw e (k, d)
  | inr e ↦ elim (Bool-cases (is_flop phase)) [
    | inl f ↦ rw (e, f) (dealt-cards 3 4 s.deck s.board (held_cards s.hole_cards) (omega arith) k d)
    | inr f ↦ rw (e, f) (dealt-cards 1 2 s.deck s.board (held_cards s.hole_cards) (omega arith) k d)
  ]
]
