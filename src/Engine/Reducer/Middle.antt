-- ===== src/Engine/Reducer/Middle.antt =====
-- reducer.ts: the table after a move, before the turn passes on.
use porker_monorepo.Base.{
  All-max_of, All-modify, Bool, Bool-cases, List, String, Unique, [], all, any-modify, ap, arith,
  get_elem?, includes, inl, inr, keys, length-modify, map-modify, max_of-All, modify, not, ok, refl,
  some, subst, suc, sym, true, zero, ℕ, ◌++◌, ◌<◌, ◌===◌, ◌==◌, ◌||◌, ◌∙◌, ◌∷◌, ◌≡◌, ◌≤◌,
}
use porker_monorepo.Engine.Invariants.{
  check_holes, has_two_cards, is_card_backed, nat_eq, participated, seats,
}
use porker_monorepo.Engine.Invariants.Facts.{Core, PlayerOk, dealt_in}
use porker_monorepo.Engine.Progress.{Acted}
use porker_monorepo.Engine.Table.{TablePlayer, TableState, is_active, player_ids}

-- The state with what the move has changed.
abbrev pub middle : TableState → Acted → TableState
middle s a = record s {
  players = a.players;
  acted_player_ids = a.acted_player_ids;
  raise_rights = a.raise_rights;
  last_acted_bet = a.last_acted_bet;
}

-- A change of the player `p` that leaves him at his place, with chips that agree with his status,
-- and with no more on this street than `top`.
pub record FairChange (top : ℕ) (p : TablePlayer) (f : TablePlayer → TablePlayer) : Type 0 where
  pub same_id : (x : TablePlayer) → (f x).id ≡ x.id
  pub same_seat : (x : TablePlayer) → (f x).seat ≡ x.seat
  pub still_ok : PlayerOk (f p)
  pub within_bet : (f p).street_committed ≤ top

all-modify :
    (q : TablePlayer → Bool) (f : TablePlayer → TablePlayer) (ps : List TablePlayer) (i : ℕ)
    {p : TablePlayer}
    → get_elem? ps i ≡ some p
    → all q ps ≡ true
    → q (f p) ≡ true
    → all q (modify ps i f) ≡ true
all-modify q f [] i e h k = refl
all-modify q f (x ∷ xs) zero e h k = ground arith
all-modify q f (x ∷ xs) (suc i) e h k = ground (arith, all-modify q f xs i e)

pub all-get :
    (q : TablePlayer → Bool) (ps : List TablePlayer) (i : ℕ) {p : TablePlayer}
    → get_elem? ps i ≡ some p
    → all q ps ≡ true
    → q p ≡ true
all-get q [] i e h = cc
all-get q (x ∷ xs) zero e h = ground arith
all-get q (x ∷ xs) (suc i) e h = all-get q xs i e (ground arith)

modify-ids :
    (top : ℕ) (p : TablePlayer) (f : TablePlayer → TablePlayer) (ps : List TablePlayer) (i : ℕ)
    → FairChange top p f
    → player_ids (modify ps i f) ≡ player_ids ps
modify-ids top p f ps i c = map-modify (λ x. x.id) f ps i c.same_id

-- The actor was dealt in, so a change of him asks for no more cards.
dealt_in-modify :
    (s : TableState) (p : TablePlayer) (i : ℕ) (f : TablePlayer → TablePlayer)
    → get_elem? s.players i ≡ some p
    → is_active p ≡ true
    → (f p).id ≡ p.id
    → dealt_in s ≡ true
    → dealt_in (record s { players = modify s.players i f }) ≡ true
dealt_in-modify s p i f at acts same dealt = elim (Bool-cases (is_card_backed s)) [
  | inl e ↦
      let q = λ (x : TablePlayer). not (participated x) || has_two_cards s.hole_cards x.id in
      let every : all q s.players ≡ true = ground (arith, e, dealt) in
      let own : has_two_cards s.hole_cards p.id ≡ true =
        ground (arith, all-get q s.players i at every, acts) in
      let own' : has_two_cards s.hole_cards (f p).id ≡ true =
        subst (λ id. has_two_cards s.hole_cards id ≡ true) (sym same) own in
      rw e (all-modify q f s.players i at every (ground (arith, own')))
  | inr e ↦ rw e refl
]

pub middle-Core :
    (s : TableState) (p : TablePlayer) (i top least : ℕ) (f : TablePlayer → TablePlayer)
    (acted rights : List String) (last : List (String × ℕ))
    → Core s
    → get_elem? s.players i ≡ some p
    → is_active p ≡ true
    → s.current_bet ≤ top
    → 0 < least
    → FairChange top p f
    → all (includes (player_ids s.players)) (acted ++ (rights ++ keys last)) ≡ true
    → Core (
        middle
          (record s { current_bet = top; minimum_raise = least })
          (record {
            players = modify s.players i f;
            acted_player_ids = acted;
            raise_rights = rights;
            last_acted_bet = last;
          }))
middle-Core s p i top least f acted rights last v at acts le pos c known =
    let ids : player_ids (modify s.players i f) ≡ player_ids s.players =
      modify-ids top p f s.players i c in
    let sts : seats (modify s.players i f) ≡ seats s.players =
      map-modify (λ x. x.seat) f s.players i c.same_seat in
    record {
      at_least_two = rw (length-modify s.players i f) v.at_least_two;
      at_most_nine = rw (length-modify s.players i f) v.at_most_nine;
      ids_unique = subst (Unique ◌===◌) (sym ids) v.ids_unique;
      seats_unique = subst (Unique nat_eq) (sym sts) v.seats_unique;
      button =
          any-modify (λ x. x.seat == s.button_seat) f s.players i
            (λ x. ap (λ n. n == s.button_seat) (c.same_seat x))
          ∙ v.button;
      small_positive = v.small_positive;
      blinds_rise = v.blinds_rise;
      raise_positive = pos;
      players_ok = All-modify PlayerOk f s.players i v.players_ok at c.still_ok;
      bet_covers =
          All-max_of (λ x. x.street_committed) top (modify s.players i f)
            (All-modify (λ x. x.street_committed ≤ top) f s.players i
              (max_of-All (λ x. x.street_committed) top s.players (omega (arith, v.bet_covers))) at
              c.within_bet);
      owners_known =
          subst (λ l. all (includes l) (acted ++ (rights ++ keys last)) ≡ true) (sym ids) known;
      board_fits = v.board_fits;
      holes_ok = subst (λ l. check_holes l s.hole_cards ≡ ok tt) (sym ids) v.holes_ok;
      participants_dealt = dealt_in-modify s p i f at acts (c.same_id p) v.participants_dealt;
      cards_consistent = v.cards_consistent;
      cards_distinct = v.cards_distinct;
    }
