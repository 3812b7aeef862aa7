-- ===== src/Engine/Showdown/RunOut.antt =====
-- pots.ts: the board is completed from the deck.
use porker_monorepo.Base.{
  All, Bool-cases, List, [], arith, drop, inl, inr, length, length-append, length-drop, length-take,
  le→leb, ltb, ltb→lt, ok, refl, suc, take, true, zero, ℕ, ◌*◌, ◌++◌, ◌+◌, ◌∷◌, ◌≡◌, ◌≤◌,
}
use porker_monorepo.Engine.Cards.{Card}
use porker_monorepo.Engine.Cards.Deal.{dealt-cards}
use porker_monorepo.Engine.Cards.Deck.{Distinct, IsConsistent}
use porker_monorepo.Engine.Invariants.{is_valid_board}
use porker_monorepo.Engine.Invariants.Facts.{cards_to_come}
use porker_monorepo.Engine.Showdown.{run_out, run_out_board}
use porker_monorepo.Engine.Table.{complete}

abbrev pub CardsOk : List Card → List Card → List Card → Type 0
CardsOk deck board held =
    All IsConsistent (deck ++ (board ++ held)) × Distinct (deck ++ (board ++ held))

-- A completed board has five cards, and the cards stay consistent and distinct.
run_out-lem :
    (n : ℕ) (board deck held : List Card) {bd : List Card × List Card}
    → run_out n board deck ≡ ok bd
    → length board ≤ 5
    → 5 ≤ length board + n
    → CardsOk deck board held
    → (length (bd.0) ≡ 5) × CardsOk (bd.1) (bd.0) held
unfolding run_out
run_out-lem zero board deck held {bd} h le ge k =
    let same : bd ≡ (board, deck) = ground (arith, h) in rw same (omega arith, k)
run_out-lem (suc n) board [] held {bd} h le ge k = elim (Bool-cases (ltb (length board) 5)) [
  | inl e ↦ absurd (ground (arith, e))
  | inr e ↦ let same : bd ≡ (board, []) = ground (arith, e) in rw same (ground (arith, e), k)
]
run_out-lem (suc n) board (c ∷ []) held {bd} h le ge k = elim (Bool-cases (ltb (length board) 5)) [
  | inl e ↦ absurd (ground (arith, e))
  | inr e ↦ let same : bd ≡ (board, c ∷ []) = ground (arith, e) in rw same (ground (arith, e), k)
]
run_out-lem (suc n) board (b ∷ c ∷ deck) held {bd} h le ge k =
    elim (Bool-cases (ltb (length board) 5)) [
      | inl e ↦
          run_out-lem n (board ++ c ∷ []) deck held {bd = bd} (ground (arith, e))
            (omega (arith, ltb→lt _ _ e, length-append board (c ∷ [])))
            (omega (arith, length-append board (c ∷ [])))
            (dealt-cards 1 2 (b ∷ c ∷ deck) board held (omega arith) k.0 k.1)
      | inr e ↦
          let same : bd ≡ (board, b ∷ c ∷ deck) = ground (arith, e) in
          rw same (ground (arith, e), k)
    ]

run_out-total :
    (n : ℕ) (board deck : List Card)
    → length board ≤ 5
    → 10 ≤ 2 * length board + length deck
    → (bd : List Card × List Card) × (run_out n board deck ≡ ok bd)
unfolding run_out
run_out-total zero board deck le enough = ((board, deck), refl)
run_out-total (suc n) board [] le enough = ((board, []), ground arith)
run_out-total (suc n) board (c ∷ []) le enough = ((board, c ∷ []), ground arith)
run_out-total (suc n) board (b ∷ c ∷ deck) le enough = elim (Bool-cases (ltb (length board) 5)) [
  | inl e ↦
      let (bd, done) =
        run_out-total n (board ++ c ∷ []) deck
          (omega (arith, ltb→lt _ _ e, length-append board (c ∷ [])))
          (omega (arith, length-append board (c ∷ []))) in
      (bd, rw e done)
  | inr e ↦ ((board, b ∷ c ∷ deck), rw e refl)
]

-- Where `runOutBoard` returns, the board has five cards; and if the cards of the deck, the board and
-- the hands were consistent and distinct, they still are.
pub run_out_board-lem :
    (board deck held : List Card) {bd : List Card × List Card}
    → run_out_board board deck ≡ ok bd
    → CardsOk deck board held
    → (length (bd.0) ≡ 5) × CardsOk (bd.1) (bd.0) held
unfolding run_out_board
run_out_board-lem [] deck held {bd} h k =
    run_out-lem 5 ([] ++ take 3 (drop 1 deck)) (drop 4 deck) held {bd = bd} (ground arith)
      (omega (arith, length-take 3 (drop 1 deck))) (omega arith)
      (dealt-cards 3 4 deck [] held (omega arith) k.0 k.1)
run_out_board-lem (c ∷ cs) deck held {bd} h k =
    run_out-lem 5 (c ∷ cs) deck held {bd = bd} (ground arith) (ground arith) (omega arith) k

-- If the board has a length that a finished hand can have, and the deck the cards that are still to
-- come, `runOutBoard` returns a result: it does not throw.
pub run_out_board-total :
    (board deck : List Card)
    → is_valid_board complete (length board) ≡ true
    → cards_to_come board ≤ length deck
    → (bd : List Card × List Card) × (run_out_board board deck ≡ ok bd)
unfolding run_out_board
run_out_board-total [] deck v st =
    let (bd, done) =
      run_out-total 5 (take 3 (drop 1 deck)) (drop 4 deck)
        (omega (arith, length-take 3 (drop 1 deck)))
        (omega (arith, length-take 3 (drop 1 deck), length-drop 1 deck, length-drop 4 deck)) in
    (bd, rw (le→leb 4 (length deck) (omega arith)) done)
run_out_board-total (a ∷ []) deck v st = absurd (ground arith)
run_out_board-total (a ∷ b ∷ []) deck v st = absurd (ground arith)
run_out_board-total (a ∷ b ∷ c ∷ []) deck v st =
    run_out-total 5 (a ∷ b ∷ c ∷ []) deck (omega arith) (omega arith)
run_out_board-total (a ∷ b ∷ c ∷ d ∷ []) deck v st =
    run_out-total 5 (a ∷ b ∷ c ∷ d ∷ []) deck (omega arith) (omega arith)
run_out_board-total (a ∷ b ∷ c ∷ d ∷ e ∷ []) deck v st =
    run_out-total 5 (a ∷ b ∷ c ∷ d ∷ e ∷ []) deck (omega arith) (omega arith)
run_out_board-total (a ∷ b ∷ c ∷ d ∷ e ∷ f ∷ cs) deck v st = absurd (ground arith)
