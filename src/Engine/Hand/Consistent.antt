-- ===== src/Engine/Hand/Consistent.antt =====
-- state.ts: the cards in the hands as cards of the deck.
use porker_monorepo.Base.{
  All, All-append, All-left, All-right, Bool-cases, List, Option, String, [], arith, get_elem?, inl,
  inr, insert, lookup, none, refl, some, subst, ℕ, ◌++◌, ◌===◌, ◌∷◌, ◌≡◌,
}
use porker_monorepo.Engine.Cards.{Card}
use porker_monorepo.Engine.Hand.{HandPlayerInput, deal_cards, hand_to, push_onto}
use porker_monorepo.Engine.Invariants.{held_cards}

-- The hands are made of cards of the deck.
All-insert :
    (P : Card → Type 0) (c : Card) (id : String) (holes : List (String × List Card))
    {was : List Card}
    → lookup id holes ≡ some was
    → P c
    → All P (held_cards holes)
    → All P (held_cards (insert id (was ++ c ∷ []) holes))
All-insert P c id [] h pc k = cc
All-insert P c id ((i, v) ∷ holes) {was} h pc k = elim (Bool-cases (i === id)) [
  | inl e ↦
      let this : v ≡ was = ground (arith, e) in
      let left : All P was = subst (λ w. All P w) this (All-left P v (held_cards holes) k) in
      rw e (
        All-append P (was ++ c ∷ []) (held_cards holes) (All-append P was (c ∷ []) left (pc, tt))
          (All-right P v (held_cards holes) k))
  | inr e ↦ rw e (
      All-append P v _ (All-left P v (held_cards holes) k) (
        All-insert P c id holes {was = was} (ground (arith, e)) pc
          (All-right P v (held_cards holes) k)))
]

All-push_onto :
    (P : Card → Type 0) (o : Option (List Card)) (c : Card) (id : String)
    (holes : List (String × List Card))
    → lookup id holes ≡ o
    → P c
    → All P (held_cards holes)
    → All P (held_cards (push_onto o id c holes))
All-push_onto P none c id holes h pc k = k
All-push_onto P (some was) c id holes h pc k = All-insert P c id holes h pc k

All-hand_to :
    (P : Card → Type 0) (o : Option HandPlayerInput) (c : Card) (holes : List (String × List Card))
    → P c
    → All P (held_cards holes)
    → All P (held_cards (hand_to o c holes))
All-hand_to P none c holes pc k = k
All-hand_to P (some input) c holes pc k =
    All-push_onto P (lookup input.id holes) c input.id holes refl pc k

pub All-deal_cards :
    (P : Card → Type 0) (inputs : List HandPlayerInput) (order : List ℕ) (cards : List Card)
    (holes : List (String × List Card))
    → All P cards
    → All P (held_cards holes)
    → All P (held_cards (deal_cards inputs order cards holes))
unfolding deal_cards
All-deal_cards P inputs [] cards holes pc k = k
All-deal_cards P inputs (seat ∷ order) [] holes pc k = k
All-deal_cards P inputs (seat ∷ order) (c ∷ cards) holes pc k =
    All-deal_cards P inputs order cards (hand_to (get_elem? inputs seat) c holes) pc.1
      (All-hand_to P (get_elem? inputs seat) c holes pc.0 k)
