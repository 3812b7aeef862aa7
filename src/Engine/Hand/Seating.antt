-- ===== src/Engine/Hand/Seating.antt =====
-- state.ts: the hands of the players after the deal.
use native.Mathlib.Nat.{mod-lt}
use porker_monorepo.Base.{
  ===_iff, ===_refl, All, Bool-cases, List, Option-cases, String, Unique, [], any-count-pos, ap,
  arith, count_by, drop, get_elem?, includes, inl, inr, keys, length, lookup, map, ok, refl, some,
  subst, suc, sym, true, zero, ℕ, ◌*◌, ◌+◌, ◌<◌, ◌===◌, ◌==◌, ◌∙◌, ◌∷◌, ◌≡◌, ◌≤◌,
}
use porker_monorepo.Engine.Cards.{Card}
use porker_monorepo.Engine.Cards.Deck.{copies}
use porker_monorepo.Engine.Hand.{HandPlayerInput, deal_order, holes_of, seat_after}
use porker_monorepo.Engine.Hand.Consistent.{All-deal_cards}
use porker_monorepo.Engine.Hand.Holes.{
  cards_of, copies-deal_cards, deal_cards-size, keys-deal_cards, sits,
}
use porker_monorepo.Engine.Hand.Order.{turns, turns-deal_order}
use porker_monorepo.Engine.Invariants.{check_holes, has_two_cards, held_cards}

abbrev pub input_ids : List HandPlayerInput → List String
input_ids inputs = map (λ input. input.id) inputs

-- A player at a seat has one of the ids.
get_elem?-count :
    (inputs : List HandPlayerInput) (i : ℕ) {x : HandPlayerInput}
    → get_elem? inputs i ≡ some x
    → 1 ≤ count_by (λ id. id === x.id) (input_ids inputs)
get_elem?-count [] i at = cc
get_elem?-count (y ∷ ys) zero {x} at =
    let same : y ≡ x = ground (arith, at) in ground (arith, same, ===_refl x.id)
get_elem?-count (y ∷ ys) (suc i) {x} at = ground (arith, get_elem?-count ys i {x = x} at)

-- With unique ids, only the seat of the player has his id.
sits-seat :
    (inputs : List HandPlayerInput) (i seat : ℕ) {x : HandPlayerInput}
    → Unique ◌===◌ (input_ids inputs)
    → get_elem? inputs i ≡ some x
    → sits inputs x.id seat ≡ (seat == i)
sits-seat [] i seat u at = cc
sits-seat (y ∷ ys) zero zero {x} u at =
    let same : y ≡ x = ground (arith, at) in ground (arith, same, ===_refl x.id)
sits-seat (y ∷ ys) zero (suc seat) {x} u at =
    let same : y ≡ x = ground (arith, at) in
    elim (Option-cases (get_elem? ys seat)) [
      | inl e ↦ rw e (ground arith)
      | inr (z, e) ↦ ground (
        arith,
        e,
        same,
        u x.id,
        get_elem?-count ys seat {x = z} e,
        ===_refl x.id,
        ===_iff z.id x.id,
      )
    ]
sits-seat (y ∷ ys) (suc i) zero {x} u at = ground (arith, u x.id, get_elem?-count ys i {x = x} at)
sits-seat (y ∷ ys) (suc i) (suc seat) {x} u at =
    ground (arith, sits-seat ys i seat {x = x} (λ a. ground (arith, u a)) at)

sits-turns :
    (inputs : List HandPlayerInput) (i : ℕ) (order : List ℕ) {x : HandPlayerInput}
    → Unique ◌===◌ (input_ids inputs)
    → get_elem? inputs i ≡ some x
    → count_by (sits inputs x.id) order ≡ turns i order
sits-turns inputs i [] u at = refl
sits-turns inputs i (seat ∷ order) {x} u at =
    ground (arith, sits-seat inputs i seat {x = x} u at, sits-turns inputs i order {x = x} u at)

-- Hands of two cards pass the check.
check_holes-two :
    (ids : List String) (holes : List (String × List Card))
    → Unique ◌===◌ (keys holes)
    → ((j : String)
        → includes (keys holes) j ≡ true
        → (includes ids j ≡ true) × (length (cards_of j holes) ≡ 2))
    → check_holes ids holes ≡ ok tt
unfolding check_holes
check_holes-two ids [] u two = refl
check_holes-two ids ((k, v) ∷ holes) u two =
    let (owned, held) = two k (ground (arith, ===_refl k)) in
    let here : length v ≡ 2 = ground (arith, held, ===_refl k) in
    let rest : check_holes ids holes ≡ ok tt =
      check_holes-two ids holes (λ a. ground (arith, u a))
        (λ j known.
          let (owned', held') = two j (ground (arith, known)) in
          elim (Bool-cases (k === j)) [
            | inl e ↦
                absurd (ground (arith, e, u j, any-count-pos (λ i. i === j) (keys holes) known))
            | inr e ↦ (owned', ground (arith, e, held'))
          ]) in
    rw (owned, here) rest

-- The hands before the deal.
abbrev pub empty_hands : List HandPlayerInput → List (String × List Card)
empty_hands inputs = map (λ input. (input.id, [])) inputs

keys-empty_hands : (inputs : List HandPlayerInput) → keys (empty_hands inputs) ≡ input_ids inputs
keys-empty_hands [] = refl
keys-empty_hands (x ∷ xs) = ap (λ ids. x.id ∷ ids) (keys-empty_hands xs)

held-empty_hands : (inputs : List HandPlayerInput) → held_cards (empty_hands inputs) ≡ []
held-empty_hands [] = refl
held-empty_hands (x ∷ xs) = held-empty_hands xs

cards_of-empty_hands :
    (j : String) (inputs : List HandPlayerInput) → length (cards_of j (empty_hands inputs)) ≡ 0
cards_of-empty_hands j [] = refl
cards_of-empty_hands j (x ∷ xs) = ground (arith, cards_of-empty_hands j xs)

-- A known id is that of the player at some seat.
input_ids-get :
    (j : String) (inputs : List HandPlayerInput)
    → includes (input_ids inputs) j ≡ true
    → (i : ℕ) × (x : HandPlayerInput) × (get_elem? inputs i ≡ some x)
      × (i < length inputs)
      × (x.id ≡ j)
input_ids-get j [] h = cc
input_ids-get j (x ∷ xs) h = elim (Bool-cases (x.id === j)) [
  | inl e ↦ (0, x, refl, omega arith, (===_iff x.id j).0 e)
  | inr e ↦
      let (i, y, at, low, same) = input_ids-get j xs (ground (arith, e)) in
      (suc i, y, at, omega arith, same)
]

length-deal_order : (k s n : ℕ) → length (deal_order k s n) ≡ k
unfolding deal_order
length-deal_order zero s n = refl
length-deal_order (suc k) s n = ap suc (length-deal_order k (seat_after s n) n)

pub keys-holes_of :
    (inputs : List HandPlayerInput) (button : ℕ) (deck : List Card)
    → keys (holes_of inputs button deck) ≡ input_ids inputs
unfolding holes_of
keys-holes_of inputs button deck =
    keys-deal_cards inputs _ deck (empty_hands inputs) ∙ keys-empty_hands inputs

-- Every player of the hand is dealt two cards.
pub cards_of-holes_of :
    (inputs : List HandPlayerInput) (button : ℕ) (deck : List Card) (j : String)
    → Unique ◌===◌ (input_ids inputs)
    → 2 * length inputs ≤ length deck
    → includes (input_ids inputs) j ≡ true
    → length (cards_of j (holes_of inputs button deck)) ≡ 2
unfolding holes_of
cards_of-holes_of inputs button deck j u enough known =
    let n = length inputs in
    let s = seat_after button n in
    let (i, x, at, low, same) = input_ids-get j inputs known in
    let start : s < n = mod-lt (button + 1) (omega arith) in
    let known' : includes (keys (empty_hands inputs)) j ≡ true =
      rw (keys-empty_hands inputs) known in
    let turns_two : turns i (deal_order (2 * n) s n) ≡ 2 = turns-deal_order i s n start low in
    let counted : count_by (sits inputs j) (deal_order (2 * n) s n) ≡ 2 =
      subst (λ id. count_by (sits inputs id) (deal_order (2 * n) s n) ≡ 2) same
        (sits-turns inputs i (deal_order (2 * n) s n) {x = x} u at ∙ turns_two) in
    omega (
      arith,
      counted,
      cards_of-empty_hands j inputs,
      deal_cards-size inputs (deal_order (2 * n) s n) deck j (empty_hands inputs)
          (omega (arith, length-deal_order (2 * n) s n)) known',
    )

-- No card is dealt twice, and the deck keeps the rest.
pub copies-holes_of :
    (x : Card) (inputs : List HandPlayerInput) (button : ℕ) (deck : List Card)
    → copies x (drop (length inputs * 2) deck) + copies x (held_cards (holes_of inputs button deck))
      ≤ copies x deck
unfolding holes_of
copies-holes_of x inputs button deck =
    let n = length inputs in
    let s = seat_after button n in
    let dealt = copies-deal_cards x inputs (deal_order (2 * n) s n) deck (empty_hands inputs) in
    let size : length (deal_order (2 * n) s n) ≡ n * 2 =
      omega (arith, length-deal_order (2 * n) s n) in
    let bound =
      subst
        (λ k.
          copies x (held_cards (holes_of inputs button deck)) + copies x (drop k deck)
          ≤ copies x (held_cards (empty_hands inputs)) + copies x deck)
        size dealt in
    let none_held : copies x (held_cards (empty_hands inputs)) ≡ 0 =
      rw (held-empty_hands inputs) refl in
    omega (arith, bound, none_held)

pub All-holes_of :
    (P : Card → Type 0) (inputs : List HandPlayerInput) (button : ℕ) (deck : List Card)
    → All P deck
    → All P (held_cards (holes_of inputs button deck))
unfolding holes_of
All-holes_of P inputs button deck k =
    All-deal_cards P inputs _ deck (empty_hands inputs) k (rw (held-empty_hands inputs) tt)

pub check_holes-holes_of :
    (inputs : List HandPlayerInput) (button : ℕ) (deck : List Card)
    → Unique ◌===◌ (input_ids inputs)
    → 2 * length inputs ≤ length deck
    → check_holes (input_ids inputs) (holes_of inputs button deck) ≡ ok tt
check_holes-holes_of inputs button deck u enough =
    let ks = keys-holes_of inputs button deck in
    check_holes-two (input_ids inputs) (holes_of inputs button deck)
      (subst (Unique ◌===◌) (sym ks) u)
      (λ j known.
        let known' : includes (input_ids inputs) j ≡ true =
          subst (λ l. includes l j ≡ true) ks known in
        (known', cards_of-holes_of inputs button deck j u enough known'))

cards_of-has_two_cards :
    (j : String) (holes : List (String × List Card))
    → length (cards_of j holes) ≡ 2
    → has_two_cards holes j ≡ true
cards_of-has_two_cards j holes h = elim (Option-cases (lookup j holes)) [
  | inl e ↦ absurd (ground (arith, e, h))
  | inr (cs, e) ↦ ground (arith, e, h)
]

pub has_two_cards-holes_of :
    (inputs : List HandPlayerInput) (button : ℕ) (deck : List Card) (j : String)
    → Unique ◌===◌ (input_ids inputs)
    → 2 * length inputs ≤ length deck
    → includes (input_ids inputs) j ≡ true
    → has_two_cards (holes_of inputs button deck) j ≡ true
has_two_cards-holes_of inputs button deck j u enough known =
    cards_of-has_two_cards j (holes_of inputs button deck)
      (cards_of-holes_of inputs button deck j u enough known)
