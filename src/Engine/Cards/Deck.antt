-- ===== src/Engine/Cards/Deck.antt =====
-- cards.ts: what `validateDeck` accepts.
use porker_monorepo.Base.{
  >>=-eq-ok, All, List, [], any, ap, arith, count_by, false, guard, guard-eq-ok, not, ok, refl, sym,
  true, ℕ, ◌+◌, ◌↔◌, ◌∙◌, ◌∷◌, ◌≡◌, ◌≤◌,
}
use porker_monorepo.Engine.Cards.{
  Card, Suit, check_cards, parse_card, same_card, same_suit, validate_deck,
}
use porker_monorepo.Engine.Error.{duplicate_card, inconsistent_card}
use porker_monorepo.Engine.Reducer.{same}

-- The code of a consistent card reads as its rank and suit.
abbrev pub IsConsistent : Card → Type 0
IsConsistent c =
    (canonical : Card) × (parse_card c.code ≡ ok canonical) × (same_card canonical c ≡ true)

-- How often the identity of `c` occurs.
abbrev pub copies : Card → List Card → ℕ
copies c cs = count_by (same_card c) cs

-- No identity occurs twice.
abbrev pub Distinct : List Card → Type 0
Distinct cs = (c : Card) → copies c cs ≤ 1

same_suit_iff : (a b : Suit) → same_suit a b ≡ true → a ≡ b
same_suit_iff a b h = ground arith

pub same_card_refl : (a : Card) → same_card a a ≡ true
same_card_refl a = ground arith

-- Equal identities are alike to every card.
pub same_card_trans : (a b c : Card) → same_card a b ≡ true → same_card a c ≡ same_card b c
same_card_trans a b c h = ground (arith, same_suit_iff a.suit b.suit)

pub same_card_comm : (a b : Card) → same_card a b ≡ same_card b a
same_card_comm a b = ground arith

any-copies : (c : Card) (cs : List Card) → any (same_card c) cs ≡ false → copies c cs ≡ 0
any-copies c [] h = refl
any-copies c (d ∷ ds) h = ground (arith, any-copies c ds)

copies-any : (c : Card) (cs : List Card) → copies c cs ≡ 0 → any (same_card c) cs ≡ false
copies-any c [] h = refl
copies-any c (d ∷ ds) h = ground (arith, copies-any c ds)

copies-same : (a b : Card) (cs : List Card) → same_card a b ≡ true → copies a cs ≡ copies b cs
copies-same a b [] h = refl
copies-same a b (d ∷ ds) h = ground (arith, copies-same a b ds h, same_card_trans a b d h)

-- A card that is not among distinct cards can join them.
Distinct-cons :
    (card : Card) (seen : List Card)
    → any (same_card card) seen ≡ false
    → Distinct seen
    → Distinct (card ∷ seen)
Distinct-cons card seen fresh d c =
    ground (arith, d c, any-copies card seen fresh, copies-same c card seen, same_card_comm c card)

check_cards_sound :
    (seen cs : List Card) {u : Unit {0}}
    → check_cards seen cs ≡ ok u
    → Distinct seen
    → All IsConsistent cs × ((c : Card) → copies c cs + copies c seen ≤ 1)
unfolding check_cards
check_cards_sound seen [] h d = (tt, λ c. omega (arith, d c))
check_cards_sound seen (card ∷ rest) h d =
    let (canonical, parsed, h1) = >>=-eq-ok (parse_card card.code) _ h in
    let (_, g1, h2) = >>=-eq-ok (guard (same_card canonical card) inconsistent_card) _ h1 in
    let (_, g2, h3) = >>=-eq-ok (guard (not (any (same_card card) seen)) duplicate_card) _ h2 in
    let fresh : any (same_card card) seen ≡ false = ground (arith, g2) in
    let (consistent, apart) =
      check_cards_sound (card ∷ seen) rest h3 (Distinct-cons card seen fresh d) in
    (((canonical, parsed, guard-eq-ok _ _ g1), consistent), λ c. omega (arith, apart c))

check_cards_complete :
    (seen cs : List Card)
    → All IsConsistent cs
    → ((c : Card) → copies c cs + copies c seen ≤ 1)
    → check_cards seen cs ≡ ok tt
unfolding check_cards
check_cards_complete seen [] k d = refl
check_cards_complete seen (card ∷ rest) ((canonical, parsed, same), k) d =
    let fresh : any (same_card card) seen ≡ false =
      copies-any card seen (ground (arith, d card, same_card_refl card)) in
    let rest_ok : check_cards (card ∷ seen) rest ≡ ok tt =
      check_cards_complete (card ∷ seen) rest k (λ c. omega (arith, d c)) in
    rw (parsed, same, fresh) rest_ok

pub validate_deck-eq :
    (cs : List Card) {deck : List Card}
    → validate_deck cs ≡ ok deck
    → (deck ≡ cs) × All IsConsistent cs × Distinct cs
unfolding validate_deck
validate_deck-eq cs h =
    let (_, checked, same) = >>=-eq-ok (check_cards [] cs) _ h in
    let (consistent, apart) = check_cards_sound [] cs checked (λ c. omega arith) in
    (ground (arith, same), consistent, λ c. omega (arith, apart c))

pub validate_deck-passes :
    (cs : List Card) → All IsConsistent cs → Distinct cs → validate_deck cs ≡ ok cs
unfolding validate_deck
validate_deck-passes cs k d = rw (check_cards_complete [] cs k (λ c. omega (arith, d c))) refl

-- `validateDeck` returns a deck exactly if it is the one that it was given, every code in it reads as
-- its card, and no identity occurs twice; so it throws on every other deck.
pub validate_deck_iff :
    (cs deck : List Card)
    → (validate_deck cs ≡ ok deck) ↔ ((deck ≡ cs) × All IsConsistent cs × Distinct cs)
validate_deck_iff cs deck = (
  λ h. validate_deck-eq cs {deck = deck} h,
  λ (same, k, d). validate_deck-passes cs k d ∙ ap ok (sym same),
)
