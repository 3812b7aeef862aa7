-- ===== src/Engine/Invariants/Check.antt =====
-- invariants.ts: the checks of assertInvariants against the facts.
use porker_monorepo.Base.{
  ===_iff, ==_iff, >>=-eq-ok, All, List, Option, Unique-to_set, [], all, any, arith, guard,
  guard-eq-ok, includes, leb, length, length-map, ltb, max_of, none, not, ok, refl, some, to_set,
  to_set-Unique, true, ◌&&◌, ◌===◌, ◌==◌, ◌||◌, ◌↔◌, ◌∙◌, ◌∷◌, ◌≡◌,
}
use porker_monorepo.Engine.Cards.{validate_deck}
use porker_monorepo.Engine.Cards.Deck.{validate_deck-eq, validate_deck-passes}
use porker_monorepo.Engine.Error.{
  EngineError, actor_not_eligible, actor_unknown, blinds_invalid, button_not_seated,
  current_bet_trails, invalid_board_count, minimum_raise_not_positive, not_2_to_9_players,
  participant_without_cards, player_ids_not_unique, seats_not_unique, unknown_metadata_owner,
}
use porker_monorepo.Engine.Invariants.{
  all_cards, assert_invariants, check_holes, check_player, check_players, is_valid_board,
  metadata_ids, nat_eq, or_throw, seats,
}
use porker_monorepo.Engine.Invariants.Facts.{Inv, PlayerOk, dealt_in}
use porker_monorepo.Engine.Table.{
  TablePlayer, TableState, is_active, is_complete, player_ids, player_of, street_commitments,
}

check_player-PlayerOk : (p : TablePlayer) → check_player p ≡ ok tt → PlayerOk p
check_player-PlayerOk p h = ground arith

PlayerOk-check_player : (p : TablePlayer) → PlayerOk p → check_player p ≡ ok tt
PlayerOk-check_player p k = ground arith

check_players-All : (ps : List TablePlayer) → check_players ps ≡ ok tt → All PlayerOk ps
unfolding check_players
check_players-All [] h = tt
check_players-All (p ∷ ps) h =
    let (_, first, rest) = >>=-eq-ok (check_player p) _ h in
    (check_player-PlayerOk p first, check_players-All ps rest)

All-check_players : (ps : List TablePlayer) → All PlayerOk ps → check_players ps ≡ ok tt
unfolding check_players
All-check_players [] k = refl
All-check_players (p ∷ ps) k = rw (PlayerOk-check_player p k.0) (All-check_players ps k.1)

or_throw-some {ℓ} :
    {A : Type ℓ} (o : Option A) (e : EngineError) {a : A} → or_throw o e ≡ ok a → o ≡ some a
or_throw-some none e h = cc
or_throw-some (some a) e h = ground arith

assert_invariants-Inv : (s : TableState) → assert_invariants s ≡ ok tt → Inv s
unfolding assert_invariants
assert_invariants-Inv s h =
    let (_, g1, h1) =
      >>=-eq-ok (guard (leb 2 (length s.players) && leb (length s.players) 9) not_2_to_9_players) _
        h in
    let (_, g2, h2) =
      >>=-eq-ok
        (guard (length (to_set ◌===◌ (player_ids s.players)) == length s.players)
          player_ids_not_unique)
        _ h1 in
    let (_, g3, h3) =
      >>=-eq-ok
        (guard (length (to_set nat_eq (seats s.players)) == length s.players) seats_not_unique) _
        h2 in
    let (_, g4, h4) =
      >>=-eq-ok (guard (any (λ p. p.seat == s.button_seat) s.players) button_not_seated) _ h3 in
    let (_, g5, h5) =
      >>=-eq-ok
        (guard (ltb 0 s.small_blind && ltb 0 s.big_blind && ltb s.small_blind s.big_blind)
          blinds_invalid)
        _ h4 in
    let (_, g6, h6) = >>=-eq-ok (guard (ltb 0 s.minimum_raise) minimum_raise_not_positive) _ h5 in
    let (actor, g7, h7) =
      >>=-eq-ok (or_throw (player_of s.actor_id s.players) actor_unknown) _ h6 in
    let (_, g8, h8) = >>=-eq-ok (check_players s.players) _ h7 in
    let (_, g9, h9) =
      >>=-eq-ok
        (guard (is_complete s.phase || (is_active actor && not (actor.stack == 0)))
          actor_not_eligible)
        _ h8 in
    let (_, g10, h10) =
      >>=-eq-ok
        (guard (leb (max_of (street_commitments s.players)) s.current_bet) current_bet_trails) _
        h9 in
    let (_, g11, h11) =
      >>=-eq-ok
        (guard (all (includes (player_ids s.players)) (metadata_ids s)) unknown_metadata_owner) _
        h10 in
    let (_, g12, h12) =
      >>=-eq-ok (guard (is_valid_board s.phase (length s.board)) invalid_board_count) _ h11 in
    let (_, g13, h13) = >>=-eq-ok (check_holes (player_ids s.players) s.hole_cards) _ h12 in
    let (_, g14, h14) = >>=-eq-ok (guard (dealt_in s) participant_without_cards) _ h13 in
    let (_, g15, _) = >>=-eq-ok (validate_deck (all_cards s)) _ h14 in
    let ids_len : length (player_ids s.players) ≡ length s.players = length-map _ s.players in
    let seats_len : length (seats s.players) ≡ length s.players = length-map _ s.players in
    let (_, consistent, distinct) = validate_deck-eq (all_cards s) g15 in
    record {
      core = record {
        at_least_two = ground (
          arith,
          guard-eq-ok (leb 2 (length s.players) && leb (length s.players) 9) not_2_to_9_players g1,
        );
        at_most_nine = ground (
          arith,
          guard-eq-ok (leb 2 (length s.players) && leb (length s.players) 9) not_2_to_9_players g1,
        );
        ids_unique = to_set-Unique ◌===◌ ===_iff _ (
            ground (
              arith,
              guard-eq-ok (length (to_set ◌===◌ (player_ids s.players)) == length s.players)
                  player_ids_not_unique g2,
              ids_len,
            ));
        seats_unique = to_set-Unique nat_eq ==_iff _ (
            ground (
              arith,
              guard-eq-ok (length (to_set nat_eq (seats s.players)) == length s.players)
                  seats_not_unique g3,
              seats_len,
            ));
        button = guard-eq-ok (any (λ p. p.seat == s.button_seat) s.players) button_not_seated g4;
        small_positive = ground (
          arith,
          guard-eq-ok (ltb 0 s.small_blind && ltb 0 s.big_blind && ltb s.small_blind s.big_blind)
              blinds_invalid g5,
        );
        blinds_rise = ground (
          arith,
          guard-eq-ok (ltb 0 s.small_blind && ltb 0 s.big_blind && ltb s.small_blind s.big_blind)
              blinds_invalid g5,
        );
        raise_positive =
            ground (arith, guard-eq-ok (ltb 0 s.minimum_raise) minimum_raise_not_positive g6);
        players_ok = check_players-All s.players g8;
        bet_covers = ground (
          arith,
          guard-eq-ok (leb (max_of (street_commitments s.players)) s.current_bet) current_bet_trails
              g10,
        );
        owners_known =
            guard-eq-ok (all (includes (player_ids s.players)) (metadata_ids s))
              unknown_metadata_owner g11;
        board_fits = guard-eq-ok (is_valid_board s.phase (length s.board)) invalid_board_count g12;
        holes_ok = g13;
        participants_dealt = guard-eq-ok (dealt_in s) participant_without_cards g14;
        cards_consistent = consistent;
        cards_distinct = distinct;
      };
      actor_ok = (
        actor,
        or_throw-some _ _ g7,
        ground (
          arith,
          guard-eq-ok (is_complete s.phase || (is_active actor && not (actor.stack == 0)))
              actor_not_eligible g9,
        ),
      );
    }

Inv-assert_invariants : (s : TableState) → Inv s → assert_invariants s ≡ ok tt
unfolding assert_invariants
Inv-assert_invariants s v =
    let (actor, found, eligible) = v.actor_ok in
    let ids_len : length (player_ids s.players) ≡ length s.players = length-map _ s.players in
    let seats_len : length (seats s.players) ≡ length s.players = length-map _ s.players in
    let ids : length (to_set ◌===◌ (player_ids s.players)) ≡ length s.players =
      Unique-to_set ◌===◌ ===_iff _ v.ids_unique ∙ ids_len in
    let seated : length (to_set nat_eq (seats s.players)) ≡ length s.players =
      Unique-to_set nat_eq ==_iff _ v.seats_unique ∙ seats_len in
    let deck : validate_deck (all_cards s) ≡ ok (all_cards s) =
      validate_deck-passes (all_cards s) v.cards_consistent v.cards_distinct in
    let size : (leb 2 (length s.players) && leb (length s.players) 9) ≡ true = ground arith in
    let blinds : (ltb 0 s.small_blind && ltb 0 s.big_blind && ltb s.small_blind s.big_blind)
        ≡ true =
      ground arith in
    let raise : ltb 0 s.minimum_raise ≡ true = ground arith in
    let acts : (is_complete s.phase || (is_active actor && not (actor.stack == 0))) ≡ true =
      ground arith in
    let covered : leb (max_of (street_commitments s.players)) s.current_bet ≡ true = ground arith in
    rw
      (
        size,
        (==_iff _ _).1 ids,
        (==_iff _ _).1 seated,
        v.button,
        blinds,
        raise,
        found,
        All-check_players s.players v.players_ok,
        acts,
        covered,
        v.owners_known,
        v.board_fits,
        v.holes_ok,
        v.participants_dealt,
        deck,
      )
      refl

-- assertInvariants passes exactly on the states for which every listed fact holds: sizes, unique ids
-- and seats, blinds, chips against status, an actor who can act, and distinct cards.
pub assert_invariants_iff : (s : TableState) → (assert_invariants s ≡ ok tt) ↔ Inv s
assert_invariants_iff s = (assert_invariants-Inv s, Inv-assert_invariants s)
