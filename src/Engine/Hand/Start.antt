-- ===== src/Engine/Hand/Start.antt =====
-- state.ts: what `startHand` returns.
use porker_monorepo.Base.{
  ===_iff, >>=-eq-ok, All, List, Number, Unique, Unique-to_set, all, ap, arith, guard, guard-eq-ok,
  leb, length, length-map, ltb, map, natural_integer, ok, ok-injective, positive_integer, refl,
  subst, sym, to_set, to_set-Unique, true, value_of, ◌&&◌, ◌<◌, ◌===◌, ◌==◌, ◌↔◌, ◌∙◌, ◌≡◌, ◌≤◌,
}
use porker_monorepo.Engine.Cards.{validate_deck}
use porker_monorepo.Engine.Cards.Deck.{
  Distinct, IsConsistent, validate_deck-eq, validate_deck-passes,
}
use porker_monorepo.Engine.Error.{
  button_outside_table, deck_not_52_cards, player_ids_not_unique, seat_count_out_of_range,
}
use porker_monorepo.Engine.Hand.{
  HandPlayerInput, StartHandOptions, opened_hand, start_hand, validate_blinds_and_stacks,
}
use porker_monorepo.Engine.Hand.Seating.{input_ids}
use porker_monorepo.Engine.Reducer.{same}
use porker_monorepo.Engine.Table.{TableState}

-- The options that `startHand` accepts.
pub record Startable (o : StartHandOptions) : Type 0 where
  pub at_least_two : 2 ≤ length o.players
  pub at_most_nine : length o.players ≤ 9
  pub button_natural : natural_integer o.button_seat ≡ true
  pub button_seated : value_of o.button_seat < length o.players
  pub ids_unique : Unique ◌===◌ (input_ids o.players)
  pub small_positive : positive_integer (o.blinds.0) ≡ true
  pub big_natural : natural_integer (o.blinds.1) ≡ true
  pub blinds_rise : value_of (o.blinds.0) < value_of (o.blinds.1)
  pub stacks_positive : all positive_integer (map (λ input. input.stack) o.players) ≡ true
  pub full_deck : length o.deck ≡ 52
  pub cards_consistent : All IsConsistent o.deck
  pub cards_distinct : Distinct o.deck

blinds_and_stacks-ok :
    (stacks : List Number) (blinds : Number × Number) {u : Unit {0}}
    → validate_blinds_and_stacks stacks blinds ≡ ok u
    → (positive_integer (blinds.0) ≡ true)
      × (natural_integer (blinds.1) ≡ true)
      × (value_of (blinds.0) < value_of (blinds.1))
      × (all positive_integer stacks ≡ true)
unfolding validate_blinds_and_stacks
blinds_and_stacks-ok stacks (small, big) h =
    let every = guard-eq-ok _ _ h in
    (ground (arith, every), ground (arith, every), ground (arith, every), ground (arith, every))

start_hand-ok :
    (o : StartHandOptions) {t : TableState}
    → start_hand o ≡ ok t
    → Startable o × (t ≡ opened_hand o o.deck)
unfolding start_hand
start_hand-ok o {t} h =
    let n = length o.players in
    let (_, g1, h1) = >>=-eq-ok (guard (leb 2 n && leb n 9) seat_count_out_of_range) _ h in
    let (_, g2, h2) =
      >>=-eq-ok
        (guard (natural_integer o.button_seat && ltb (value_of o.button_seat) n)
          button_outside_table)
        _ h1 in
    let (_, g3, h3) =
      >>=-eq-ok (guard (length (to_set ◌===◌ (input_ids o.players)) == n) player_ids_not_unique) _
        h2 in
    let (_, g4, h4) =
      >>=-eq-ok (validate_blinds_and_stacks (map (λ input. input.stack) o.players) o.blinds) _ h3 in
    let (_, g5, h5) = >>=-eq-ok (guard (length o.deck == 52) deck_not_52_cards) _ h4 in
    let (deck, g6, h6) = >>=-eq-ok (validate_deck o.deck) _ h5 in
    let (same, consistent, distinct) = validate_deck-eq o.deck {deck = deck} g6 in
    let (small_ok, big_ok, rise, stacks_ok) =
      blinds_and_stacks-ok (map (λ input. input.stack) o.players) o.blinds g4 in
    let e1 = guard-eq-ok _ _ g1 in
    let e2 = guard-eq-ok _ _ g2 in
    let e3 = guard-eq-ok _ _ g3 in
    let counted : length (to_set ◌===◌ (input_ids o.players)) ≡ length (input_ids o.players) =
      ground (arith, e3, length-map (λ (input : HandPlayerInput). input.id) o.players) in
    let e5 = guard-eq-ok _ _ g5 in
    (
      record {
        at_least_two = ground (arith, e1);
        at_most_nine = ground (arith, e1);
        button_natural = ground (arith, e2);
        button_seated = ground (arith, e2);
        ids_unique = to_set-Unique ◌===◌ ===_iff (input_ids o.players) counted;
        small_positive = small_ok;
        big_natural = big_ok;
        blinds_rise = rise;
        stacks_positive = stacks_ok;
        full_deck = ground (arith, e5);
        cards_consistent = consistent;
        cards_distinct = distinct;
      },
      subst (λ d. t ≡ opened_hand o d) same (sym (ok-injective h6)),
    )

Startable-starts : (o : StartHandOptions) → Startable o → start_hand o ≡ ok (opened_hand o o.deck)
unfolding start_hand validate_blinds_and_stacks
Startable-starts o k =
    let n = length o.players in
    let size : (leb 2 n && leb n 9) ≡ true = ground (arith, k.at_least_two, k.at_most_nine) in
    let button : (natural_integer o.button_seat && ltb (value_of o.button_seat) n) ≡ true =
      ground (arith, k.button_natural, k.button_seated) in
    let unique : (length (to_set ◌===◌ (input_ids o.players)) == n) ≡ true = ground (
      arith,
      Unique-to_set ◌===◌ ===_iff (input_ids o.players) k.ids_unique,
      length-map (λ (input : HandPlayerInput). input.id) o.players,
    ) in
    let rise : ltb (value_of (o.blinds.0)) (value_of (o.blinds.1)) ≡ true =
      ground (arith, k.blinds_rise) in
    let full : (length o.deck == 52) ≡ true = ground (arith, k.full_deck) in
    let deck : validate_deck o.deck ≡ ok o.deck =
      validate_deck-passes o.deck k.cards_consistent k.cards_distinct in
    rw (size, button, unique, k.small_positive, k.big_natural, rise, k.stacks_positive, full, deck)
      refl

-- `startHand` returns exactly for 2 to 9 players with unique ids and positive stacks, a button among
-- them, positive rising blinds and a deck of 52 consistent, distinct cards; and what it returns is the
-- hand opened with that deck.
pub start_hand_iff :
    (o : StartHandOptions) (t : TableState)
    → (start_hand o ≡ ok t) ↔ (Startable o × (t ≡ opened_hand o o.deck))
start_hand_iff o t = (start_hand-ok o, λ k. Startable-starts o k.0 ∙ ap ok (sym k.1))
