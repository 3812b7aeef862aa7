-- ===== src/Engine/Advance/Chips.antt =====
-- lifecycle.ts: the chips of the next hand.
use porker_monorepo.Base.{
  >>=-eq-ok, List, String, [], any, ap, arith, false, guard, guard-eq-ok, if◌then◌else◌, leb,
  length, map, not, ok, ok-injective, refl, some, sym, true, ℕ, ◌&&◌, ◌*◌, ◌+◌, ◌===◌, ◌==◌, ◌∙◌,
  ◌∷◌, ◌≡◌, ◌≤◌,
}
use porker_monorepo.Engine.Advance.{
  AdvanceHandOptions, advance_hand, deal_funded, deal_next, forced_for, funded_after,
  funded_players, is_heads_up, next_hand, next_hand_player,
}
use porker_monorepo.Engine.Cards.{Card, validate_deck}
use porker_monorepo.Engine.Error.{
  advance_before_complete, advance_before_settled, deck_not_52_cards, funded_seats_out_of_range,
  hand_identity_missing,
}
use porker_monorepo.Engine.Lifecycle.{has_committed}
use porker_monorepo.Engine.Table.{TablePlayer, TableState, chips, is_complete, total_chips}

-- The blinds of the next hand come out of the stacks.
next_hand_player-chips :
    (forced : String → ℕ) (p : TablePlayer)
    → has_committed p ≡ false
    → chips (next_hand_player forced p) ≡ chips p
unfolding next_hand_player
next_hand_player-chips forced p h = ground arith

next_hand-chips :
    (forced : String → ℕ) (ps : List TablePlayer)
    → any has_committed ps ≡ false
    → total_chips (map (next_hand_player forced) ps) ≡ total_chips ps
next_hand-chips forced [] h = refl
next_hand-chips forced (p ∷ ps) h = omega (
  arith,
  next_hand_player-chips forced p (ground arith),
  next_hand-chips forced ps (ground arith),
)

deal_next-players :
    (s : TableState) (o : AdvanceHandOptions) (deck : List Card) {t : TableState}
    → deal_next s o deck ≡ ok t
    → (forced : String → ℕ) × (t.players ≡ map (next_hand_player forced) s.players)
      × (t.version ≡ s.version + 1)
      × (t.hand_id ≡ o.hand_id)
unfolding deal_next next_hand
deal_next-players s o deck {t} h =
    let (button, _, h1) = >>=-eq-ok (funded_after s.players s.button_seat) _ h in
    let (next, _, h2) = >>=-eq-ok (funded_after s.players button.seat) _ h1 in
    let small = if is_heads_up s then button else next in
    let (big, _, h3) = >>=-eq-ok (funded_after s.players small.seat) _ h2 in
    let (holes, _, h4) =
      >>=-eq-ok
        (deal_funded (2 * length (funded_players s.players)) s.players next deck
          (map (λ p. (p.id, [])) (funded_players s.players)))
        _ h3 in
    let (after_big, _, h5) = >>=-eq-ok (funded_after s.players big.seat) _ h4 in
    let same = ok-injective h5 in
    (
      forced_for small big s.small_blind s.big_blind,
      ap (λ (x : TableState). x.players) (sym same),
      ap (λ (x : TableState). x.version) (sym same),
      ap (λ (x : TableState). x.hand_id) (sym same),
    )

-- Where `advanceHand` returns, the hand was complete and settled and at least two players had chips;
-- the next hand has the given id, the next version and the same chips in all.
pub advance_hand-total_chips :
    (s : TableState) (o : AdvanceHandOptions) {t : TableState}
    → advance_hand s (some o) ≡ ok t
    → (is_complete s.phase ≡ true)
      × (any has_committed s.players ≡ false)
      × (2 ≤ length (funded_players s.players))
      × (t.hand_id ≡ o.hand_id)
      × (t.version ≡ s.version + 1)
      × (total_chips t.players ≡ total_chips s.players)
unfolding advance_hand
advance_hand-total_chips s o {t} h =
    let settled_hand = not (any has_committed s.players) in
    let funded = funded_players s.players in
    let (_, g1, h1) = >>=-eq-ok (guard (is_complete s.phase) advance_before_complete) _ h in
    let (_, g2, h2) = >>=-eq-ok (guard settled_hand advance_before_settled) _ h1 in
    let (_, _, h3) = >>=-eq-ok (guard (not (o.hand_id === "")) hand_identity_missing) _ h2 in
    let (_, _, h4) = >>=-eq-ok (guard (length o.deck == 52) deck_not_52_cards) _ h3 in
    let (deck, _, h5) = >>=-eq-ok (validate_deck o.deck) _ h4 in
    let (_, g6, h6) =
      >>=-eq-ok (guard (leb 2 (length funded) && leb (length funded) 9) funded_seats_out_of_range) _
        h5 in
    let none_in : any has_committed s.players ≡ false = ground (arith, guard-eq-ok _ _ g2) in
    let (forced, players, version, id) = deal_next-players s o deck {t = t} h6 in
    (
      guard-eq-ok _ _ g1,
      none_in,
      ground (arith, guard-eq-ok _ _ g6),
      id,
      version,
      ap total_chips players ∙ next_hand-chips forced s.players none_in,
    )
