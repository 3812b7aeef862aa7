-- ===== src/Engine/Hand/Opened.antt =====
-- state.ts: the state of a new hand.
use native.Mathlib.Nat.{mod-lt}
use porker_monorepo.Base.{
  All-append, All-drop, Bool, Bool-cases, List, String, Unique, [], all, append-nil, arith,
  count_by-append, drop, false, filter, get_elem?, if◌then◌else◌, includes, inl, inr, length,
  length-drop, max_of, not, ok, or-true, refl, some, subst, sym, true, value_of, ℕ, ◌*◌, ◌<◌, ◌===◌,
  ◌==◌, ◌||◌, ◌∷◌, ◌≡◌, ◌≤◌,
}
use porker_monorepo.Engine.Cards.{same_card}
use porker_monorepo.Engine.Cards.Deck.{IsConsistent}
use porker_monorepo.Engine.Hand.{
  StartHandOptions, first_actor, first_id, forced_bet, holes_of, id_of, is_betting_complete,
  opened_hand, seat_after, seat_players, start_hand,
}
use porker_monorepo.Engine.Hand.Actor.{InPlace, first_actor-ActorOk}
use porker_monorepo.Engine.Hand.Seating.{
  All-holes_of, check_holes-holes_of, copies-holes_of, has_two_cards-holes_of, input_ids,
}
use porker_monorepo.Engine.Hand.Seats.{
  PlayerOk-seated, button-seated, ids-seated, length-seated, positive_value, seat-seated, seated,
  seats-seated, stacks_total, total_chips-seated,
}
use porker_monorepo.Engine.Hand.Start.{Startable, start_hand_iff}
use porker_monorepo.Engine.Invariants.{
  assert_invariants, check_holes, has_two_cards, held_cards, is_card_backed, is_valid_board,
  participated,
}
use porker_monorepo.Engine.Invariants.Check.{assert_invariants_iff}
use porker_monorepo.Engine.Invariants.Facts.{ActorOk, Core, Inv, Stocked}
use porker_monorepo.Engine.Pots.Eligible.{Known-filter, includes_self}
use porker_monorepo.Engine.Progress.{can_act}
use porker_monorepo.Engine.Table.{
  TablePlayer, TableState, complete, is_active, is_complete, player_ids, player_of, preflop,
  street_commitments, total_chips,
}

-- The seats of the blinds, and of the player who is asked first.
abbrev small_seat : StartHandOptions → ℕ
small_seat o =
    let n = length o.players in
    let button = value_of o.button_seat in if n == 2 then button else seat_after button n

abbrev big_seat : StartHandOptions → ℕ
big_seat o = seat_after (small_seat o) (length o.players)

abbrev first_seat : StartHandOptions → ℕ
first_seat o =
    if length o.players == 2
    then value_of o.button_seat
    else seat_after (big_seat o) (length o.players)

abbrev forced_of : StartHandOptions → ℕ → ℕ
forced_of o seat =
    forced_bet (small_seat o) (big_seat o) (value_of (o.blinds.0)) (value_of (o.blinds.1)) seat

-- The players of the new hand.
abbrev dealt_players : StartHandOptions → List TablePlayer
dealt_players o = seated (forced_of o) 0 o.players

all-seated :
    (q : String → Bool) (ps : List TablePlayer)
    → all q (player_ids ps) ≡ true
    → all (λ p. not (participated p) || q p.id) ps ≡ true
all-seated q [] h = refl
all-seated q (p ∷ ps) h = ground (arith, all-seated q ps)

-- What holds of every id of a list holds of all.
all-from :
    (q : String → Bool) (ids known : List String)
    → ((j : String) → includes ids j ≡ true → q j ≡ true)
    → all (includes ids) known ≡ true
    → all q known ≡ true
all-from q ids [] k h = refl
all-from q ids (j ∷ js) k h = ground (arith, k j (ground arith), all-from q ids js k (ground arith))

is_valid_board-start : (b : Bool) → is_valid_board (if b then complete else preflop) 0 ≡ true
is_valid_board-start true = refl
is_valid_board-start false = refl

opened_hand-Core : (o : StartHandOptions) → Startable o → Core (opened_hand o o.deck)
unfolding opened_hand seat_players
opened_hand-Core o k =
    let n = length o.players in
    let button = value_of o.button_seat in
    let holes = holes_of o.players button o.deck in
    let ps = dealt_players o in
    let ids : player_ids ps ≡ input_ids o.players = ids-seated (forced_of o) 0 o.players in
    let size : n ≡ length ps = sym (length-seated (forced_of o) 0 o.players) in
    let enough : 2 * n ≤ length o.deck = omega (arith, k.full_deck, k.at_most_nine) in
    let held : all (λ j. has_two_cards holes j) (player_ids ps) ≡ true =
      all-from (λ j. has_two_cards holes j) (player_ids ps) (player_ids ps)
        (λ j known.
          has_two_cards-holes_of o.players button o.deck j k.ids_unique enough
            (subst (λ l. includes l j ≡ true) ids known))
        (includes_self (player_ids ps)) in
    record {
      at_least_two = subst (λ m. 2 ≤ m) size k.at_least_two;
      at_most_nine = subst (λ m. m ≤ 9) size k.at_most_nine;
      ids_unique = subst (Unique ◌===◌) (sym ids) k.ids_unique;
      seats_unique = seats-seated (forced_of o) 0 o.players;
      button =
          button-seated (forced_of o) 0 button o.players (omega arith)
            (omega (arith, k.button_seated));
      small_positive = positive_value (o.blinds.0) k.small_positive;
      blinds_rise = k.blinds_rise;
      raise_positive = omega (arith, k.blinds_rise);
      players_ok = PlayerOk-seated (forced_of o) 0 o.players k.stacks_positive;
      bet_covers = omega arith;
      owners_known =
          subst (λ l. all (includes (player_ids ps)) l ≡ true)
            (sym (append-nil (player_ids (filter is_active ps)))) (Known-filter is_active ps);
      board_fits = is_valid_board-start _;
      holes_ok =
          subst (λ l. check_holes l holes ≡ ok tt) (sym ids)
            (check_holes-holes_of o.players button o.deck k.ids_unique enough);
      participants_dealt =
          subst (λ b. (not (is_card_backed (opened_hand o o.deck)) || b) ≡ true)
            (sym (all-seated (λ j. has_two_cards holes j) ps held)) (or-true _);
      cards_consistent =
          All-append IsConsistent (drop (n * 2) o.deck) (held_cards holes)
            (All-drop IsConsistent (n * 2) o.deck k.cards_consistent)
            (All-holes_of IsConsistent o.players button o.deck k.cards_consistent);
      cards_distinct = λ c. omega (
        arith,
        k.cards_distinct c,
        copies-holes_of c o.players button o.deck,
        count_by-append (same_card c) (drop (n * 2) o.deck) (held_cards holes),
      );
    }

dealt_players-InPlace : (o : StartHandOptions) → InPlace (dealt_players o)
dealt_players-InPlace o k p at = omega (arith, seat-seated (forced_of o) 0 k o.players at)

first_seat-below : (o : StartHandOptions) → Startable o → first_seat o < length o.players
first_seat-below o k = elim (Bool-cases (length o.players == 2)) [
  | inl e ↦ rw e k.button_seated
  | inr e ↦ rw e (mod-lt _ {m = length o.players} (omega (arith, k.at_least_two)))
]

opened_hand-ActorOk : (o : StartHandOptions) → Startable o → ActorOk (opened_hand o o.deck)
unfolding opened_hand seat_players
opened_hand-ActorOk o k =
    let ps = dealt_players o in
    let s = first_seat o in
    let size : length ps ≡ length o.players = length-seated (forced_of o) 0 o.players in
    let low : s < length ps = omega (arith, size, first_seat-below o k) in
    let u = subst (Unique ◌===◌) (sym (ids-seated (forced_of o) 0 o.players)) k.ids_unique in
    subst
      (λ m.
        (p : TablePlayer) × (player_of (id_of (first_actor m ps m s (get_elem? ps s)) (first_id ps))
            ps
          ≡ some p)
        × ((is_complete (
                if is_betting_complete (filter is_active ps) (first_actor m ps m s (get_elem? ps s))
                  (max_of (street_commitments ps))
                then complete
                else preflop)
              || can_act p)
            ≡ true))
      size
      (first_actor-ActorOk ps s (max_of (street_commitments ps)) (first_id ps)
        (dealt_players-InPlace o) low u
        (PlayerOk-seated (forced_of o) 0 o.players k.stacks_positive))

opened_hand-rest :
    (o : StartHandOptions)
    → Startable o
    → Stocked (opened_hand o o.deck)
      × (total_chips (opened_hand o o.deck).players ≡ stacks_total o.players)
unfolding opened_hand seat_players
opened_hand-rest o k = (
  omega (arith, length-drop (length o.players * 2) o.deck, k.full_deck, k.at_most_nine),
  total_chips-seated (forced_of o) 0 o.players,
)

-- A hand that `startHand` returns passes assertInvariants, has the cards for the whole board, and has
-- all the chips that the players brought, the blinds included.
pub start_hand-assert_invariants :
    (o : StartHandOptions) {t : TableState}
    → start_hand o ≡ ok t
    → (assert_invariants t ≡ ok tt) × Stocked t × (total_chips t.players ≡ stacks_total o.players)
start_hand-assert_invariants o {t} h =
    let (k, same) = (start_hand_iff o t).0 h in
    let (stocked, total) = opened_hand-rest o k in
    let inv : Inv (opened_hand o o.deck) = record {
      core = opened_hand-Core o k;
      actor_ok = opened_hand-ActorOk o k;
    } in
    rw same ((assert_invariants_iff (opened_hand o o.deck)).1 inv, stocked, total)
