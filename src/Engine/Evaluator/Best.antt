-- ===== src/Engine/Evaluator/Best.antt =====
-- evaluator.ts: the search of `evaluateSeven`.
use porker_monorepo.Base.{
  >>=-eq-ok, All, All-append, All-get, All-imp, All-left, All-map-imp, All-right, Bool-cases, List,
  Option, [], ap, arith, get_elem?, guard, inl, inr, length, length-append, length-map, map, none,
  ok, ok-injective, refl, some, some-injective, subst, suc, sym, true, zero, ℕ, ◌==◌, ◌∙◌, ◌∷◌, ◌≡◌,
  ◌≤◌, ◌⊎◌,
}
use porker_monorepo.Engine.Cards.{Card, validate_deck}
use porker_monorepo.Engine.Cards.Deck.{
  Distinct, IsConsistent, validate_deck-eq, validate_deck-passes,
}
use porker_monorepo.Engine.Error.{EngineError, not_seven_cards}
use porker_monorepo.Engine.Evaluator.{
  HandScore, best_score, better, choices, compare_hands, evaluate_five, evaluate_seven, is_greater,
}
use porker_monorepo.Engine.Evaluator.Order.{
  NoBetter, NoBetter-flip, compare_hands-flip, compare_hands_refl, compare_hands_trans,
}
use porker_monorepo.Engine.Invariants.{or_throw}
use porker_monorepo.Engine.Reducer.{same}

-- Some hand of the list has the score.
abbrev pub Attained : HandScore → List (List Card) → Type 0
Attained s hands =
    (i : ℕ) × (hand : List Card) × (get_elem? hands i ≡ some hand) × (evaluate_five hand ≡ s)

-- No hand of the list beats the score.
abbrev pub Unbeaten : HandScore → List (List Card) → Type 0
Unbeaten s hands = All (λ (hand : List Card). NoBetter (compare_hands (evaluate_five hand) s)) hands

-- A better score replaces the best one, and is not beaten by it.
better-keeps :
    (best current s : HandScore)
    → NoBetter (compare_hands (better (some best) current) s)
    → NoBetter (compare_hands best s) × NoBetter (compare_hands current s)
unfolding better
better-keeps best current s h = elim (Bool-cases (is_greater (compare_hands current best))) [
  | inl e ↦
      let up : NoBetter (compare_hands current s) = ground (arith, e, h) in
      let below : NoBetter (compare_hands best current) =
        subst NoBetter (sym (compare_hands-flip current best)) (NoBetter-flip _ e) in
      (compare_hands_trans best current s below up, up)
  | inr e ↦
      let up : NoBetter (compare_hands best s) = ground (arith, e, h) in
      (up, compare_hands_trans current best s e up)
]

better_either :
    (best current : HandScore)
    → (better (some best) current ≡ current) ⊎ (better (some best) current ≡ best)
unfolding better
better_either best current = elim (Bool-cases (is_greater (compare_hands current best))) [
  | inl e ↦ inl (rw e refl)
  | inr e ↦ inr (rw e refl)
]

best_score-from :
    (best s : HandScore) (hands : List (List Card))
    → best_score (some best) hands ≡ some s
    → NoBetter (compare_hands best s) × Unbeaten s hands × ((best ≡ s) ⊎ Attained s hands)
unfolding best_score
best_score-from best s [] h =
    let same : best ≡ s = some-injective h in
    (subst (λ x. NoBetter (compare_hands best x)) same (compare_hands_refl best), tt, inl same)
best_score-from best s (hand ∷ hands) h =
    let current = evaluate_five hand in
    let (top, rest, from) = best_score-from (better (some best) current) s hands h in
    let (best_ok, current_ok) = better-keeps best current s top in
    (
      best_ok,
      (current_ok, rest),
      elim from [
        | inl same ↦ elim (better_either best current) [
          | inl e ↦ inr (0, hand, refl, sym e ∙ same)
          | inr e ↦ inl (sym e ∙ same)
        ]
        | inr (i, other, at, scored) ↦ inr (suc i, other, at, scored)
      ],
    )

best_score-IsBest :
    (s : HandScore) (hands : List (List Card))
    → best_score none hands ≡ some s
    → Attained s hands × Unbeaten s hands
unfolding best_score better
best_score-IsBest s [] h = cc
best_score-IsBest s (hand ∷ hands) h =
    let (top, rest, from) = best_score-from (evaluate_five hand) s hands h in
    (
      elim from [
        | inl same ↦ (0, hand, refl, same)
        | inr (i, other, at, scored) ↦ (suc i, other, at, scored)
      ],
      (top, rest),
    )

or_throw-some :
    (o : Option HandScore) (e : EngineError) {s : HandScore} → or_throw o e ≡ ok s → o ≡ some s
or_throw-some none e h = cc
or_throw-some (some x) e h = ap some (ok-injective h)

-- A choice of the cards: some of them, in their order.
abbrev pub IsChoice : List Card → List Card → Type 0
IsChoice [] cards = Unit {0}
IsChoice (h ∷ hand) [] = ⊥
IsChoice (h ∷ hand) (c ∷ cards) = ((h ≡ c) × IsChoice hand cards) ⊎ IsChoice (h ∷ hand) cards

-- A choice of that many cards.
abbrev pub ChoiceOf : ℕ → List Card → List Card → Type 0
ChoiceOf n cards hand = IsChoice hand cards × (length hand ≡ n)

IsChoice-cons :
    (c : Card) (hand cards : List Card) → IsChoice hand cards → IsChoice hand (c ∷ cards)
IsChoice-cons c [] cards k = tt
IsChoice-cons c (h ∷ hand) cards k = inr k

All-choices : (n : ℕ) (cards : List Card) → All (λ hand. ChoiceOf n cards hand) (choices n cards)
unfolding choices
All-choices zero cards = ((tt, refl), tt)
All-choices (suc n) [] = tt
All-choices (suc n) (c ∷ cards) =
    let prepend = λ (hand : List Card). c ∷ hand in
    let Wider = λ (hand : List Card). ChoiceOf (suc n) (c ∷ cards) hand in
    All-append Wider (map prepend (choices n cards)) (choices (suc n) cards)
      (All-map-imp (λ hand. ChoiceOf n cards hand) Wider prepend (choices n cards)
        (λ hand k. (inl (refl, k.0), ap suc k.1)) (All-choices n cards))
      (All-imp (λ hand. ChoiceOf (suc n) cards hand) Wider (choices (suc n) cards)
        (λ hand k. (IsChoice-cons c hand cards k.0, k.1)) (All-choices (suc n) cards))

All-prepended :
    (P : List Card → Type 0) (c : Card) (hands : List (List Card))
    → All P (map (λ hand. c ∷ hand) hands)
    → All (λ hand. P (c ∷ hand)) hands
All-prepended P c [] k = tt
All-prepended P c (hand ∷ hands) k = (k.0, All-prepended P c hands k.1)

-- What holds of all that the loops try, holds of every choice.
choices-complete :
    (P : List Card → Type 0) (n : ℕ) (cards hand : List Card)
    → All P (choices n cards)
    → IsChoice hand cards
    → length hand ≡ n
    → P hand
unfolding choices
choices-complete P zero cards [] k h e = k.0
choices-complete P zero cards (x ∷ hand) k h e = absurd (omega (arith, e))
choices-complete P (suc n) cards [] k h e = absurd (omega (arith, e))
choices-complete P (suc n) [] (x ∷ hand) k h e = absurd h
choices-complete P (suc n) (c ∷ cards) (x ∷ hand) k (inl (same, h)) e =
    subst (λ y. P (y ∷ hand)) (sym same)
      (choices-complete (λ rest. P (c ∷ rest)) n cards hand
        (All-prepended P c (choices n cards)
          (All-left P (map (λ rest. c ∷ rest) (choices n cards)) (choices (suc n) cards) k))
        h (omega (arith, e)))
choices-complete P (suc n) (c ∷ cards) (x ∷ hand) k (inr h) e =
    choices-complete P (suc n) cards (x ∷ hand)
      (All-right P (map (λ rest. c ∷ rest) (choices n cards)) (choices (suc n) cards) k) h e

-- A score that five of the cards have, and that no five of them beat.
pub record BestOf (n : ℕ) (cards : List Card) (s : HandScore) : Type 0 where
  pub hand : List Card
  pub chosen : ChoiceOf n cards hand
  pub scored : evaluate_five hand ≡ s
  pub unbeaten :
      (other : List Card)
      → ChoiceOf n cards other
      → NoBetter (compare_hands (evaluate_five other) s)

-- The score that `evaluateSeven` returns is that of five of the cards, and no five of the cards, taken
-- in their order, have a better one.
pub evaluate_seven-best :
    (cards : List Card) {s : HandScore} → evaluate_seven cards ≡ ok s → BestOf 5 cards s
unfolding evaluate_seven
evaluate_seven-best cards {s} h =
    let (_, _, h1) = >>=-eq-ok (guard (length cards == 7) not_seven_cards) _ h in
    let (deck, checked, h2) = >>=-eq-ok (validate_deck cards) _ h1 in
    let (same, _, _) = validate_deck-eq cards {deck = deck} checked in
    let found : best_score none (choices 5 deck) ≡ some s = or_throw-some _ _ h2 in
    let ((i, hand, at, scored), unbeaten) =
      best_score-IsBest s (choices 5 cards)
        (subst (λ d. best_score none (choices 5 d) ≡ some s) same found) in
    record {
      hand = hand;
      chosen = All-get (λ hand. ChoiceOf 5 cards hand) (choices 5 cards) i (All-choices 5 cards) at;
      scored = scored;
      unbeaten = λ other k.
          choices-complete (λ hand. NoBetter (compare_hands (evaluate_five hand) s)) 5 cards other
            unbeaten k.0 k.1;
    }

best_score-some :
    (best : HandScore) (hands : List (List Card))
    → (s : HandScore) × (best_score (some best) hands ≡ some s)
unfolding best_score
best_score-some best [] = (best, refl)
best_score-some best (hand ∷ hands) =
    best_score-some (better (some best) (evaluate_five hand)) hands

best_score-first :
    (hands : List (List Card))
    → 1 ≤ length hands
    → (s : HandScore) × (best_score none hands ≡ some s)
unfolding best_score better
best_score-first [] h = absurd (omega arith)
best_score-first (hand ∷ hands) h = best_score-some (evaluate_five hand) hands

-- There is a choice of `n` cards out of `n` or more.
length-choices : (n : ℕ) (cards : List Card) → n ≤ length cards → 1 ≤ length (choices n cards)
unfolding choices
length-choices zero cards h = omega arith
length-choices (suc n) [] h = absurd (omega arith)
length-choices (suc n) (c ∷ cards) h =
    let prepend = λ (hand : List Card). c ∷ hand in
    omega (
      arith,
      length-choices n cards (omega arith),
      length-map prepend (choices n cards),
      length-append (map prepend (choices n cards)) (choices (suc n) cards),
    )

-- Seven consistent, distinct cards have a score: `evaluateSeven` does not throw.
pub evaluate_seven-total :
    (cards : List Card)
    → length cards ≡ 7
    → All IsConsistent cards
    → Distinct cards
    → (s : HandScore) × (evaluate_seven cards ≡ ok s)
unfolding evaluate_seven
evaluate_seven-total cards seven consistent distinct =
    let deck = validate_deck-passes cards consistent distinct in
    let size : (length cards == 7) ≡ true = ground (arith, seven) in
    let (s, found) =
      best_score-first (choices 5 cards) (length-choices 5 cards (omega (arith, seven))) in
    (s, rw (size, deck, found) refl)
