-- ===== src/Engine/Samples.antt =====
-- Test data: a full deck, and a three-handed table in its first hand.
use porker_monorepo.Base.{
  List, String, [], drop, if◌then◌else◌, ltb, map, nat, none, ℕ, ◌++◌, ◌+◌, ◌==◌, ◌∷◌,
}
use porker_monorepo.Engine.Advance.{AdvanceHandOptions}
use porker_monorepo.Engine.Cards.{Card, Suit, clubs, diamonds, hearts, spades, suit_code}
use porker_monorepo.Engine.Commands.{Action, TableCommand}
use porker_monorepo.Engine.Evaluator.{HandScore, flush, score}
use porker_monorepo.Engine.Hand.{HandPlayerInput, StartHandOptions}
use porker_monorepo.Engine.Table.{
  PlayerStatus, TablePlayer, TableState, active, all_in, complete, folded, preflop,
}

abbrev pub rank_code : ℕ → ℕ
rank_code n =
    if ltb n 10
    then b'0' + n
    else if n == 10
    then b'T'
    else if n == 11
    then b'J'
    else if n == 12
    then b'Q'
    else if n == 13
    then b'K'
    else b'A'

abbrev pub card : ℕ → Suit → Card
card n s = record { code = rank_code n ∷ suit_code s ∷ []; rank = n; suit = s }

abbrev pub suit_cards : Suit → List Card
suit_cards s = map (λ n. card n s) (2 ∷ 3 ∷ 4 ∷ 5 ∷ 6 ∷ 7 ∷ 8 ∷ 9 ∷ 10 ∷ 11 ∷ 12 ∷ 13 ∷ 14 ∷ [])

abbrev pub full_deck : List Card
full_deck = suit_cards clubs ++ (suit_cards diamonds ++ (suit_cards hearts ++ suit_cards spades))

abbrev pub three_players : List HandPlayerInput
three_players =
    record { id = "ann"; stack = nat 100 }
    ∷ record { id = "bob"; stack = nat 60 }
    ∷ record { id = "cyd"; stack = nat 80 }
    ∷ []

abbrev pub three_options : StartHandOptions
three_options = record {
  table_id = "table";
  hand_id = "hand-1";
  players = three_players;
  button_seat = nat 0;
  blinds = (nat 5, nat 10);
  deck = full_deck;
}

abbrev pub seated_player : String → ℕ → ℕ → ℕ → TablePlayer
seated_player id seat stack committed = record {
  id = id;
  seat = seat;
  stack = stack;
  street_committed = committed;
  hand_committed = committed;
  status = active;
}

abbrev pub ann : TablePlayer
ann = seated_player "ann" 0 100 0

abbrev pub bob : TablePlayer
bob = seated_player "bob" 1 55 5

abbrev pub cyd : TablePlayer
cyd = seated_player "cyd" 2 70 10

-- The state after the blinds: the button acts first.
abbrev pub first_state : TableState
first_state = record {
  table_id = "table";
  hand_id = "hand-1";
  phase = preflop;
  version = 0;
  button_seat = 0;
  actor_id = "ann";
  current_bet = 10;
  minimum_raise = 10;
  small_blind = 5;
  big_blind = 10;
  players = ann ∷ bob ∷ cyd ∷ [];
  acted_player_ids = [];
  raise_rights = "ann" ∷ "bob" ∷ "cyd" ∷ [];
  last_acted_bet = [];
  deck = drop 6 full_deck;
  board = [];
  hole_cards =
      ("ann", card 4 clubs ∷ card 7 clubs ∷ [])
      ∷ ("bob", card 2 clubs ∷ card 5 clubs ∷ [])
      ∷ ("cyd", card 3 clubs ∷ card 6 clubs ∷ [])
      ∷ [];
}

abbrev pub command : String → Action → TableCommand
command id action = record { player_id = id; expected_version = none; action = action }

-- Preflop, everybody is all in for a different amount, or has folded.
abbrev pub shown_player : String → ℕ → ℕ → ℕ → PlayerStatus → TablePlayer
shown_player id seat stack committed status = record (seated_player id seat stack 0) {
  hand_committed = committed;
  status = status;
}

abbrev pub shown_players : List TablePlayer
shown_players =
    shown_player "ann" 0 40 60 active
    ∷ shown_player "bob" 1 0 60 all_in
    ∷ shown_player "cyd" 2 0 15 folded
    ∷ []

abbrev pub shown_state : TableState
shown_state = record first_state {
  phase = complete;
  version = 3;
  current_bet = 0;
  players = shown_players;
  raise_rights = [];
}

-- The two who are left have the same flush, but for the kicker: ann's is higher.
abbrev pub settled_table : TableState
settled_table = record shown_state {
  version = 4;
  players =
      shown_player "ann" 0 175 0 active
      ∷ shown_player "bob" 1 0 0 all_in
      ∷ shown_player "cyd" 2 0 0 folded
      ∷ [];
  deck = drop 14 full_deck;
  board = card 9 clubs ∷ card 10 clubs ∷ card 11 clubs ∷ card 13 clubs ∷ card 2 diamonds ∷ [];
}

abbrev pub topped_table : TableState
topped_table = record settled_table {
  version = 5;
  players =
      shown_player "ann" 0 175 0 active
      ∷ shown_player "bob" 1 50 0 active
      ∷ shown_player "cyd" 2 0 0 folded
      ∷ [];
}

-- A table at which bob was not dealt in.
abbrev pub undealt_table : TableState
undealt_table = record settled_table { hole_cards = ("ann", card 4 clubs ∷ card 7 clubs ∷ []) ∷ [] }

abbrev pub undealt_topped : TableState
undealt_topped = record topped_table { hole_cards = ("ann", card 4 clubs ∷ card 7 clubs ∷ []) ∷ [] }

-- The cards that ann shows down, and their score.
abbrev pub seven_cards : List Card
seven_cards = card 4 clubs ∷ card 7 clubs ∷ settled_table.board

abbrev pub king_flush : HandScore
king_flush = score flush (13 ∷ 11 ∷ 10 ∷ 9 ∷ 7 ∷ [])

-- The hand after that: cyd has no chips, so ann and bob play heads up, with the button on bob.
abbrev pub next_options : AdvanceHandOptions
next_options = record { hand_id = "hand-2"; deck = full_deck }

abbrev pub next_state : TableState
next_state = record first_state {
  hand_id = "hand-2";
  version = 6;
  button_seat = 1;
  actor_id = "bob";
  players =
      seated_player "ann" 0 165 10
      ∷ seated_player "bob" 1 45 5
      ∷ shown_player "cyd" 2 0 0 folded
      ∷ [];
  raise_rights = "ann" ∷ "bob" ∷ [];
  deck = drop 4 full_deck;
  hole_cards =
      ("ann", card 2 clubs ∷ card 4 clubs ∷ []) ∷ ("bob", card 3 clubs ∷ card 5 clubs ∷ []) ∷ [];
}
