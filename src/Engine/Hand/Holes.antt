-- ===== src/Engine/Hand/Holes.antt =====
-- state.ts: the cards that the deal hands out.
use porker_monorepo.Base.{
  ===_iff, Bool, Bool-cases, List, Option, String, [], ap, arith, count_by, count_by-append, drop,
  false, get_elem?, if◌then◌else◌, includes, inl, inr, insert, keys, length, length-append, lookup,
  lookup-insert, none, refl, some, true, ℕ, ◌++◌, ◌+◌, ◌===◌, ◌∙◌, ◌∷◌, ◌≡◌, ◌≤◌,
}
use porker_monorepo.Engine.Cards.{Card, same_card}
use porker_monorepo.Engine.Cards.Deck.{copies}
use porker_monorepo.Engine.Hand.{HandPlayerInput, deal_cards, hand_to, push_onto}
use porker_monorepo.Engine.Invariants.{held_cards}

-- The cards under an id.
abbrev pub cards_of : String → List (String × List Card) → List Card
cards_of id holes = elim (lookup id holes) [ none ↦ [] | some cards ↦ cards ]

-- Whether the player at a seat has the id.
abbrev pub has_id : Option HandPlayerInput → String → Bool
has_id none id = false
has_id (some input) id = input.id === id

abbrev pub sits : List HandPlayerInput → String → ℕ → Bool
sits inputs id seat = has_id (get_elem? inputs seat) id

keys-insert :
    (id : String) (cs : List Card) (holes : List (String × List Card)) {was : List Card}
    → lookup id holes ≡ some was
    → keys (insert id cs holes) ≡ keys holes
keys-insert id cs [] h = cc
keys-insert id cs ((k, v) ∷ holes) {was} h = elim (Bool-cases (k === id)) [
  | inl e ↦ rw e refl
  | inr e ↦ rw e (ap (λ ks. k ∷ ks) (keys-insert id cs holes {was = was} (ground (arith, e))))
]

keys-push_onto :
    (o : Option (List Card)) (id : String) (c : Card) (holes : List (String × List Card))
    → lookup id holes ≡ o
    → keys (push_onto o id c holes) ≡ keys holes
keys-push_onto none id c holes h = refl
keys-push_onto (some was) id c holes h = keys-insert id (was ++ c ∷ []) holes h

keys-hand_to :
    (o : Option HandPlayerInput) (c : Card) (holes : List (String × List Card))
    → keys (hand_to o c holes) ≡ keys holes
keys-hand_to none c holes = refl
keys-hand_to (some input) c holes = keys-push_onto (lookup input.id holes) input.id c holes refl

pub keys-deal_cards :
    (inputs : List HandPlayerInput) (order : List ℕ) (cards : List Card)
    (holes : List (String × List Card))
    → keys (deal_cards inputs order cards holes) ≡ keys holes
unfolding deal_cards
keys-deal_cards inputs [] cards holes = refl
keys-deal_cards inputs (seat ∷ order) [] holes = refl
keys-deal_cards inputs (seat ∷ order) (c ∷ cards) holes =
    keys-deal_cards inputs order cards (hand_to (get_elem? inputs seat) c holes)
    ∙ keys-hand_to (get_elem? inputs seat) c holes

lookup-keys :
    (id : String) (holes : List (String × List Card))
    → includes (keys holes) id ≡ true
    → (cs : List Card) × (lookup id holes ≡ some cs)
lookup-keys id [] h = cc
lookup-keys id ((k, v) ∷ holes) h = elim (Bool-cases (k === id)) [
  | inl e ↦ (v, rw e refl)
  | inr e ↦ let (cs, found) = lookup-keys id holes (ground (arith, e)) in (cs, rw e found)
]

-- A card that is pushed makes its hand larger, and no other.
push_onto-size :
    (o : Option (List Card)) (id : String) (c : Card) (j : String)
    (holes : List (String × List Card))
    → lookup id holes ≡ o
    → includes (keys holes) j ≡ true
    → length (cards_of j (push_onto o id c holes))
      ≡ length (cards_of j holes) + (if id === j then 1 else 0)
push_onto-size none id c j holes h known =
    let (cs, there) = lookup-keys j holes known in ground (arith, h, there, ===_iff id j)
push_onto-size (some was) id c j holes h known =
    ground
      (arith, h, lookup-insert id j (was ++ c ∷ []) holes, ===_iff id j, length-append was (c ∷ []))

hand_to-size :
    (o : Option HandPlayerInput) (c : Card) (j : String) (holes : List (String × List Card))
    → includes (keys holes) j ≡ true
    → length (cards_of j (hand_to o c holes))
      ≡ length (cards_of j holes) + (if has_id o j then 1 else 0)
hand_to-size none c j holes known = omega arith
hand_to-size (some input) c j holes known =
    push_onto-size (lookup input.id holes) input.id c j holes refl known

-- A hand ends with as many cards more as its player had turns.
pub deal_cards-size :
    (inputs : List HandPlayerInput) (order : List ℕ) (cards : List Card) (j : String)
    (holes : List (String × List Card))
    → length order ≤ length cards
    → includes (keys holes) j ≡ true
    → length (cards_of j (deal_cards inputs order cards holes))
      ≡ length (cards_of j holes) + count_by (sits inputs j) order
unfolding deal_cards
deal_cards-size inputs [] cards j holes h known = omega arith
deal_cards-size inputs (seat ∷ order) [] j holes h known = absurd (omega arith)
deal_cards-size inputs (seat ∷ order) (c ∷ cards) j holes h known =
    let o = get_elem? inputs seat in
    let still : includes (keys (hand_to o c holes)) j ≡ true = rw (keys-hand_to o c holes) known in
    ground (
      arith,
      deal_cards-size inputs order cards j (hand_to o c holes) (omega arith) still,
      hand_to-size o c j holes known,
    )

-- No card is in the hands more often than it came off the deck.
copies-insert :
    (x c : Card) (id : String) (holes : List (String × List Card)) {was : List Card}
    → lookup id holes ≡ some was
    → copies x (held_cards (insert id (was ++ c ∷ []) holes))
      ≡ copies x (held_cards holes) + copies x (c ∷ [])
copies-insert x c id [] h = cc
copies-insert x c id ((k, v) ∷ holes) {was} h = elim (Bool-cases (k === id)) [
  | inl e ↦
      let this : v ≡ was = ground (arith, e) in
      rw (e, this)
        (omega (
          arith,
          count_by-append (same_card x) (was ++ c ∷ []) (held_cards holes),
          count_by-append (same_card x) was (c ∷ []),
          count_by-append (same_card x) was (held_cards holes),
        ))
  | inr e ↦ rw e (
      omega (
        arith,
        copies-insert x c id holes {was = was} (ground (arith, e)),
        count_by-append (same_card x) v (held_cards (insert id (was ++ c ∷ []) holes)),
        count_by-append (same_card x) v (held_cards holes),
      ))
]

copies-push_onto :
    (o : Option (List Card)) (x c : Card) (id : String) (holes : List (String × List Card))
    → lookup id holes ≡ o
    → copies x (held_cards (push_onto o id c holes))
      ≤ copies x (held_cards holes) + copies x (c ∷ [])
copies-push_onto none x c id holes h = omega arith
copies-push_onto (some was) x c id holes h = omega (arith, copies-insert x c id holes h)

copies-hand_to :
    (o : Option HandPlayerInput) (x c : Card) (holes : List (String × List Card))
    → copies x (held_cards (hand_to o c holes)) ≤ copies x (held_cards holes) + copies x (c ∷ [])
copies-hand_to none x c holes = omega arith
copies-hand_to (some input) x c holes =
    copies-push_onto (lookup input.id holes) x c input.id holes refl

pub copies-deal_cards :
    (x : Card) (inputs : List HandPlayerInput) (order : List ℕ) (cards : List Card)
    (holes : List (String × List Card))
    → copies x (held_cards (deal_cards inputs order cards holes))
        + copies x (drop (length order) cards)
      ≤ copies x (held_cards holes) + copies x cards
unfolding deal_cards
copies-deal_cards x inputs [] cards holes = omega arith
copies-deal_cards x inputs (seat ∷ order) [] holes = omega arith
copies-deal_cards x inputs (seat ∷ order) (c ∷ cards) holes =
    let o = get_elem? inputs seat in
    omega (
      arith,
      copies-deal_cards x inputs order cards (hand_to o c holes),
      copies-hand_to o x c holes,
    )
