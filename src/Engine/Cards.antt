-- ===== src/Engine/Cards.antt =====
-- packages/poker-engine/src/cards.ts: cards, their codes, and the check of a deck.
-- A text is the list of its UTF-16 code units. Only ASCII letters have a digit, T, J, Q, K or A as
-- upper case, or c, d, h or s as lower case, so `to_upper` and `to_lower` change these letters only.
pub mod Parse
pub mod Deck
pub mod Deal
use porker_monorepo.Base.{
  ℕ, zero, suc, ◌+◌, ◌-◌, Bool, true, false, ◌&&◌, ◌||◌, not, List, [], ◌∷◌, Option, none, some,
  ltb, leb, ◌==◌, if◌then◌else◌, any, Result, ok, err, ◌>>=◌, ◌>>◌, guard,
}
use porker_monorepo.Engine.Error.{EngineError, invalid_card_code, inconsistent_card, duplicate_card}

abbrev pub Text : Type 0
Text = List ℕ

pub data Suit : Type 0 where
  clubs diamonds hearts spades : Suit

pub record Card : Type 0 where
  pub code : Text
  pub rank : ℕ
  pub suit : Suit

-- `rankByCode[c]`.
unfoldable pub rank_by_code : ℕ → Option ℕ
rank_by_code c =
    if leb b'2' c && leb c b'9'
    then some (c - b'0')
    else if c == b'T'
    then some 10
    else if c == b'J'
    then some 11
    else if c == b'Q'
    then some 12
    else if c == b'K'
    then some 13
    else if c == b'A'
    then some 14
    else none

-- The element of `SUITS` that is spelled `c`.
unfoldable pub suit_by_code : ℕ → Option Suit
suit_by_code c =
    if c == b'c'
    then some clubs
    else if c == b'd'
    then some diamonds
    else if c == b'h'
    then some hearts
    else if c == b's'
    then some spades
    else none

abbrev pub suit_code : Suit → ℕ
suit_code clubs = b'c'
suit_code diamonds = b'd'
suit_code hearts = b'h'
suit_code spades = b's'

abbrev pub same_suit : Suit → Suit → Bool
same_suit a b = suit_code a == suit_code b

unfoldable pub to_upper : ℕ → ℕ
to_upper c = if leb b'a' c && leb c b'z' then c - 32 else c

unfoldable pub to_lower : ℕ → ℕ
to_lower c = if leb b'A' c && leb c b'Z' then c + 32 else c

-- White space and line ends of ECMAScript: what `trim` removes and `\s` matches.
unfoldable pub is_space : ℕ → Bool
is_space c =
    (leb 9 c && leb c 13)
    || (c == 32)
    || (c == 0xa0)
    || (c == 0x1680)
    || (leb 0x2000 c && leb c 0x200a)
    || (c == 0x2028)
    || (c == 0x2029)
    || (c == 0x202f)
    || (c == 0x205f)
    || (c == 0x3000)
    || (c == 0xfeff)

unfoldable pub trim_start : Text → Text
trim_start [] = []
trim_start (c ∷ cs) = let rest = trim_start cs in if is_space c then rest else c ∷ cs

-- `c` in front of a text that is already trimmed at its end.
unfoldable pub keep_end : ℕ → Text → Text
keep_end c [] = if is_space c then [] else c ∷ []
keep_end c (d ∷ ds) = c ∷ d ∷ ds

unfoldable pub trim_end : Text → Text
unfolding keep_end
trim_end [] = []
trim_end (c ∷ cs) = keep_end c (trim_end cs)

unfoldable pub trim : Text → Text
unfolding trim_start trim_end is_space
trim s = trim_end (trim_start s)

unfoldable pub card_of : ℕ → Option ℕ → Option Suit → Result EngineError Card
card_of r (some rank) (some suit) =
    ok (record { code = r ∷ suit_code suit ∷ []; rank = rank; suit = suit })
card_of r _ _ = err invalid_card_code

-- The tests of `parseCard` on the trimmed text.
unfoldable pub parse_normalized : Text → Result EngineError Card
unfolding card_of rank_by_code suit_by_code to_upper to_lower
parse_normalized (r ∷ s ∷ []) =
    card_of (to_upper r) (rank_by_code (to_upper r)) (suit_by_code (to_lower s))
parse_normalized _ = err invalid_card_code

unfoldable pub parse_card : Text → Result EngineError Card
unfolding trim parse_normalized
parse_card code = parse_normalized (trim code)

abbrev pub non_empty : Text → List Text → List Text
non_empty [] ws = ws
non_empty (c ∷ cs) ws = (c ∷ cs) ∷ ws

-- The text up to its first white space, and the words after that: `split(/\s+/)`.
unfoldable pub split_words : Text → Text × List Text
split_words [] = ([], [])
split_words (c ∷ cs) =
    let (w, ws) = split_words cs in if is_space c then ([], non_empty w ws) else (c ∷ w, ws)

unfoldable pub parse_all : List Text → Result EngineError (List Card)
parse_all [] = ok []
parse_all (w ∷ ws) = do card ← parse_card w; cards ← parse_all ws; ok (card ∷ cards)

unfoldable pub parse_trimmed : Text → Result EngineError (List Card)
unfolding split_words parse_all
parse_trimmed [] = ok []
parse_trimmed (c ∷ cs) = let (w, ws) = split_words (c ∷ cs) in parse_all (w ∷ ws)

unfoldable pub parse_cards : Text → Result EngineError (List Card)
unfolding parse_trimmed trim
parse_cards codes = parse_trimmed (trim codes)

-- Two cards with one identity `${rank}:${suit}`.
abbrev pub same_card : Card → Card → Bool
same_card a b = a.rank == b.rank && same_suit a.suit b.suit

-- The loop of `validateDeck`.
unfoldable pub check_cards : List Card → List Card → Result EngineError (Unit {0})
check_cards seen [] = ok tt
check_cards seen (card ∷ rest) = do
  canonical ← parse_card card.code
  guard (same_card canonical card) inconsistent_card
  guard (not (any (same_card card) seen)) duplicate_card
  check_cards (card ∷ seen) rest

unfoldable pub validate_deck : List Card → Result EngineError (List Card)
unfolding check_cards
validate_deck cards = do check_cards [] cards; ok cards
