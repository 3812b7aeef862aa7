-- ===== src/Engine/Cards/Deal.antt =====
-- Cards that move from the deck to the board.
use porker_monorepo.Base.{
  All, All-append, All-drop, All-left, All-right, All-take, List, [], arith, count_by-append, drop,
  suc, take, zero, ℕ, ◌++◌, ◌+◌, ◌∷◌, ◌≤◌,
}
use porker_monorepo.Engine.Cards.{Card, same_card}
use porker_monorepo.Engine.Cards.Deck.{Distinct, IsConsistent, copies}

copies-split :
    (c : Card) (m n : ℕ) (deck : List Card)
    → m ≤ n
    → copies c (drop n deck) + copies c (take m deck) ≤ copies c deck
copies-split c zero zero deck h = omega arith
copies-split c zero (suc n) [] h = omega arith
copies-split c zero (suc n) (x ∷ xs) h = omega (arith, copies-split c zero n xs (omega arith))
copies-split c (suc m) zero deck h = absurd (omega arith)
copies-split c (suc m) (suc n) [] h = omega arith
copies-split c (suc m) (suc n) (x ∷ xs) h = omega (arith, copies-split c m n xs (omega arith))

-- A burned card and `m` dealt ones are among the first `n` of the deck.
copies-dealt :
    (c : Card) (m n : ℕ) (deck : List Card)
    → m + 1 ≤ n
    → copies c (drop n deck) + copies c (take m (drop 1 deck)) ≤ copies c deck
copies-dealt c zero zero [] h = omega arith
copies-dealt c zero (suc n) [] h = omega arith
copies-dealt c (suc m) zero [] h = omega arith
copies-dealt c (suc m) (suc n) [] h = omega arith
copies-dealt c m zero (x ∷ xs) h = absurd (omega arith)
copies-dealt c m (suc n) (x ∷ xs) h = omega (arith, copies-split c m n xs (omega arith))

-- The cards of a state after `m` cards were dealt off the deck, and `n` of them are gone.
pub dealt-cards :
    (m n : ℕ) (deck board held : List Card)
    → m + 1 ≤ n
    → All IsConsistent (deck ++ (board ++ held))
    → Distinct (deck ++ (board ++ held))
    → All IsConsistent (drop n deck ++ ((board ++ take m (drop 1 deck)) ++ held))
      × Distinct (drop n deck ++ ((board ++ take m (drop 1 deck)) ++ held))
dealt-cards m n deck board held h k d = (
  All-append IsConsistent (drop n deck) _ (All-drop IsConsistent n deck in_deck) (
      All-append IsConsistent (board ++ take m (drop 1 deck)) held
        (All-append IsConsistent board _ in_board
          (All-take IsConsistent m _ (All-drop IsConsistent 1 deck in_deck)))
        in_hands),
  λ c. omega (
    arith,
    d c,
    copies-dealt c m n deck h,
    count_by-append (same_card c) deck (board ++ held),
    count_by-append (same_card c) board held,
    count_by-append (same_card c) (drop n deck) ((board ++ take m (drop 1 deck)) ++ held),
    count_by-append (same_card c) (board ++ take m (drop 1 deck)) held,
    count_by-append (same_card c) board (take m (drop 1 deck)),
  ),
)
  where
    in_deck : All IsConsistent deck
    in_deck = All-left IsConsistent deck (board ++ held) k

    in_board : All IsConsistent board
    in_board = All-left IsConsistent board held (All-right IsConsistent deck (board ++ held) k)

    in_hands : All IsConsistent held
    in_hands = All-right IsConsistent board held (All-right IsConsistent deck (board ++ held) k)
