-- ===== src/Engine/Evaluator.antt =====
-- packages/poker-engine/src/evaluator.ts: the score of a hand.
pub mod Order
pub mod Best
use Prim.Native.Nat.{compare, Ordering}
use porker_monorepo.Base.{
  Bool, List, Option, Result, [], all, any, false, filter, find, get_elem?, guard, if◌then◌else◌,
  is_some, leb, length, ltb, map, none, some, sort, suc, take, to_set, true, zero, ℕ, ◌&&◌, ◌++◌,
  ◌+◌, ◌==◌, ◌>>=◌, ◌>>◌, ◌||◌, ◌∷◌,
}
use porker_monorepo.Engine.Cards.{Card, same_suit, validate_deck}
use porker_monorepo.Engine.Error.{EngineError, not_seven_cards, unable_to_evaluate}
use porker_monorepo.Engine.Invariants.{nat_eq, or_throw}

pub data HandCategory : Type 0 where
  high_card pair two_pair three_kind straight flush full_house four_kind straight_flush :
      HandCategory

pub record HandScore : Type 0 where
  pub category : HandCategory
  pub value : List ℕ

-- `categories.indexOf(category)`.
abbrev pub category_index : HandCategory → ℕ
category_index high_card = 0
category_index pair = 1
category_index two_pair = 2
category_index three_kind = 3
category_index straight = 4
category_index flush = 5
category_index full_house = 6
category_index four_kind = 7
category_index straight_flush = 8

abbrev pub score : HandCategory → List ℕ → HandScore
score category kickers = record { category = category; value = category_index category ∷ kickers }

abbrev pub higher : ℕ → ℕ → Bool
higher a b = ltb b a

-- Every rank is `high` less its offset.
unfoldable pub descends : ℕ → ℕ → List ℕ → Bool
descends high offset [] = true
descends high offset (rank ∷ ranks) = rank + offset == high && descends high (suc offset) ranks

-- The loop over the start of the run: a shorter rest has no five ranks.
unfoldable pub straight_from : List ℕ → Option ℕ
unfolding descends
straight_from [] = none
straight_from (high ∷ rest) =
    let later = straight_from rest in
    if leb 5 (length (high ∷ rest)) && descends high 0 (take 5 (high ∷ rest))
    then some high
    else later

-- The distinct ranks from the highest, and an ace once more at the low end.
unfoldable pub run_ranks : List ℕ → List ℕ
run_ranks ranks =
    let unique = sort higher (to_set nat_eq ranks) in
    if any (λ r. r == 14) unique then unique ++ 1 ∷ [] else unique

unfoldable pub straight_high : List ℕ → Option ℕ
unfolding straight_from run_ranks
straight_high ranks = straight_from (run_ranks ranks)

pub record Group : Type 0 where
  pub rank : ℕ
  pub count : ℕ

abbrev pub group_before : Group → Group → Bool
group_before a b = ltb b.count a.count || (a.count == b.count && ltb b.rank a.rank)

unfoldable pub groups_of : List ℕ → List Group
groups_of ranks = sort group_before (
    map
      (λ (r : ℕ).
        let g : Group = record { rank = r; count = length (filter (λ c. c == r) ranks) } in g)
      (to_set nat_eq ranks))

abbrev pub group_of : ℕ → List Group → Option Group
group_of n groups = find (λ g. g.count == n) groups

abbrev pub singles : List Group → List Group
singles groups = filter (λ g. g.count == 1) groups

abbrev pub group_ranks : List Group → List ℕ
group_ranks groups = map (λ g. g.rank) groups

-- `group?.rank ?? 0`.
abbrev pub rank_or_zero : Option Group → ℕ
rank_or_zero none = 0
rank_or_zero (some g) = g.rank

abbrev pub value_or_zero : Option ℕ → ℕ
value_or_zero none = 0
value_or_zero (some n) = n

-- The chain of tests of `evaluateFive`.
unfoldable pub classify : List ℕ → List Group → Bool → Option ℕ → HandScore
classify ranks groups is_flush run =
    let four = group_of 4 groups in
    let three = group_of 3 groups in
    let two = group_of 2 groups in
    let pairs = filter (λ g. g.count == 2) groups in
    let single = rank_or_zero (group_of 1 groups) in
    if is_flush && is_some run
    then score straight_flush (value_or_zero run ∷ [])
    else if is_some four
    then score four_kind (rank_or_zero four ∷ single ∷ [])
    else if is_some three && is_some two
    then score full_house (rank_or_zero three ∷ rank_or_zero two ∷ [])
    else if is_flush
    then score flush ranks
    else if is_some run
    then score straight (value_or_zero run ∷ [])
    else if is_some three
    then score three_kind (rank_or_zero three ∷ group_ranks (singles groups))
    else if leb 2 (length pairs)
    then score two_pair
        (rank_or_zero (get_elem? pairs 0) ∷ rank_or_zero (get_elem? pairs 1) ∷ single ∷ [])
    else if is_some two
    then score pair (rank_or_zero two ∷ group_ranks (singles groups))
    else score high_card ranks

-- `cards.every((card) => card.suit === cards[0]?.suit)`.
abbrev pub one_suit : List Card → Bool
one_suit [] = true
one_suit (c ∷ cs) = all (λ d. same_suit d.suit c.suit) (c ∷ cs)

abbrev pub sorted_ranks : List Card → List ℕ
sorted_ranks cards = sort higher (map (λ c. c.rank) cards)

unfoldable pub evaluate_five : List Card → HandScore
unfolding groups_of straight_high classify
evaluate_five cards =
    let ranks = sorted_ranks cards in
    classify ranks (groups_of ranks) (one_suit cards) (straight_high ranks)

abbrev pub then_by : Ordering → Ordering → Ordering
then_by Ordering.lt next = Ordering.lt
then_by Ordering.eq next = next
then_by Ordering.gt next = Ordering.gt

-- The loop of `compareHands`: a missing value counts as 0. The ordering is the sign it returns.
unfoldable pub compare_values : List ℕ → List ℕ → Ordering
compare_values [] [] = Ordering.eq
compare_values [] (b ∷ bs) = then_by (compare 0 b) (compare_values [] bs)
compare_values (a ∷ as') [] = then_by (compare a 0) (compare_values as' [])
compare_values (a ∷ as') (b ∷ bs) = then_by (compare a b) (compare_values as' bs)

unfoldable pub compare_hands : HandScore → HandScore → Ordering
unfolding compare_values
compare_hands a b = compare_values a.value b.value

abbrev pub is_greater : Ordering → Bool
is_greater Ordering.lt = false
is_greater Ordering.eq = false
is_greater Ordering.gt = true

-- The five nested loops: the choices of `n` cards in the order of their indices.
unfoldable pub choices : ℕ → List Card → List (List Card)
choices zero cards = [] ∷ []
choices (suc n) [] = []
choices (suc n) (c ∷ cs) = map (λ hand. c ∷ hand) (choices n cs) ++ choices (suc n) cs

unfoldable pub better : Option HandScore → HandScore → HandScore
better none current = current
better (some best) current = if is_greater (compare_hands current best) then current else best

unfoldable pub best_score : Option HandScore → List (List Card) → Option HandScore
unfolding better
best_score best [] = best
best_score best (hand ∷ hands) = best_score (some (better best (evaluate_five hand))) hands

unfoldable pub evaluate_seven : List Card → Result EngineError HandScore
unfolding choices best_score
evaluate_seven cards = do
  guard (length cards == 7) not_seven_cards
  deck ← validate_deck cards
  or_throw (best_score none (choices 5 deck)) unable_to_evaluate
