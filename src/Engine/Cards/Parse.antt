-- ===== src/Engine/Cards/Parse.antt =====
-- cards.ts: what `parseCard` accepts, and the code that it writes.
use porker_monorepo.Base.{Option, [], ap, arith, false, none, ok, refl, some, ℕ, ◌∙◌, ◌∷◌, ◌≡◌, ◌≤◌}
use porker_monorepo.Engine.Cards.{
  Card, Suit, Text, card_of, is_space, keep_end, parse_card, parse_normalized, rank_by_code,
  suit_by_code, suit_code, to_lower, to_upper, trim, trim_end, trim_start,
}

to_upper_idem : (c : ℕ) → to_upper (to_upper c) ≡ to_upper c
unfolding to_upper
to_upper_idem c = ground arith

to_lower-suit_code : (s : Suit) → suit_by_code (to_lower (suit_code s)) ≡ some s
unfolding suit_by_code to_lower
to_lower-suit_code s = ground arith

suit_code-no-space : (s : Suit) → is_space (suit_code s) ≡ false
unfolding is_space
suit_code-no-space s = ground arith

-- The bytes that spell a rank are no white space, and the ranks are 2 to 14.
rank_by_code-some :
    (c : ℕ) {rank : ℕ}
    → rank_by_code c ≡ some rank
    → (is_space c ≡ false) × (2 ≤ rank) × (rank ≤ 14)
unfolding rank_by_code is_space
rank_by_code-some c h = (ground arith, ground arith, ground arith)

trim_pair : (r s : ℕ) → is_space r ≡ false → is_space s ≡ false → trim (r ∷ s ∷ []) ≡ r ∷ s ∷ []
unfolding trim_start trim_end keep_end trim
trim_pair r s hr hs = ground arith

card_of-code :
    (r : ℕ) (rank : Option ℕ) (suit : Option Suit) {c : Card}
    → card_of r rank suit ≡ ok c
    → (k : ℕ) × (s : Suit) × (rank ≡ some k)
      × (suit ≡ some s)
      × (c ≡ record { code = r ∷ suit_code s ∷ []; rank = k; suit = s })
unfolding card_of
card_of-code r (some k) (some s) h = (k, s, refl, refl, ground arith)
card_of-code r (some k) none h = cc
card_of-code r none s h = cc

parse_pair :
    (r s : ℕ)
    → is_space r ≡ false
    → is_space s ≡ false
    → parse_card (r ∷ s ∷ [])
      ≡ card_of (to_upper r) (rank_by_code (to_upper r)) (suit_by_code (to_lower s))
unfolding parse_card parse_normalized
parse_pair r s hr hs = ap parse_normalized (trim_pair r s hr hs)

-- The code that is written for a rank and a suit reads back as them.
card_of-parses :
    (r : ℕ) (suit : Suit) {rank : ℕ}
    → rank_by_code (to_upper r) ≡ some rank
    → parse_card (to_upper r ∷ suit_code suit ∷ [])
      ≡ ok (record { code = to_upper r ∷ suit_code suit ∷ []; rank = rank; suit = suit })
unfolding card_of
card_of-parses r suit e =
    parse_pair (to_upper r) (suit_code suit) (rank_by_code-some _ e).0 (suit_code-no-space suit)
    ∙ rw (to_upper_idem r, e, to_lower-suit_code suit) refl

parse_normalized-code :
    (t : Text) {c : Card}
    → parse_normalized t ≡ ok c
    → (parse_card c.code ≡ ok c) × (2 ≤ c.rank) × (c.rank ≤ 14)
unfolding parse_normalized
parse_normalized-code [] h = cc
parse_normalized-code (r ∷ []) h = cc
parse_normalized-code (r ∷ s ∷ x ∷ xs) h = cc
parse_normalized-code (r ∷ s ∷ []) h =
    let (k, suit, ek, es, ec) = card_of-code (to_upper r) _ _ h in
    let (plain, low, high) = rank_by_code-some (to_upper r) ek in
    rw ec (card_of-parses r suit ek, low, high)

-- A card that `parseCard` returns has a rank from 2 to 14, and a canonical code: parsing that code
-- gives the same card again.
pub parse_card-code :
    (t : Text) {c : Card}
    → parse_card t ≡ ok c
    → (parse_card c.code ≡ ok c) × (2 ≤ c.rank) × (c.rank ≤ 14)
unfolding parse_card
parse_card-code t h = parse_normalized-code (trim t) h
