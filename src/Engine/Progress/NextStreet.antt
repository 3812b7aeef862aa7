-- ===== src/Engine/Progress/NextStreet.antt =====
-- reducer.ts: the invariants at the start of the next street.
use porker_monorepo.Base.{
  All, All-map-imp, Bool, Bool-cases, List, String, Unique, [], all, any, ap, arith, false, inl,
  inr, length, length-map, ltb, max_of, not, ok, refl, subst, sym, true, ℕ, ◌&&◌, ◌<◌, ◌===◌, ◌==◌,
  ◌||◌, ◌∙◌, ◌∷◌, ◌≡◌,
}
use porker_monorepo.Engine.Cards.{Card}
use porker_monorepo.Engine.Commands.{GameEvent}
use porker_monorepo.Engine.Invariants.{
  check_holes, has_two_cards, is_card_backed, nat_eq, participated, seats,
}
use porker_monorepo.Engine.Invariants.Facts.{Inv, PlayerOk, Stocked, dealt_in}
use porker_monorepo.Engine.Pots.Eligible.{Known-filter}
use porker_monorepo.Engine.Progress.{
  Acted, actives, clear_street, deal_board, deal_street, finish_hand, finish_or_pass_action,
  is_hand_closed, is_street_closed, next_phase, next_street, pass_action, reset_street,
}
use porker_monorepo.Engine.Progress.Invariant.{
  Ready, finish_hand-Inv, known-join, next_active-ok, pass_action-Inv,
}
use porker_monorepo.Engine.Progress.Street.{deal_board-cards, deal_street-fits}
use porker_monorepo.Engine.Reducer.Middle.{middle}
use porker_monorepo.Engine.Table.{
  BettingPhase, TablePlayer, TableState, is_active, player_ids, street_commitments,
}

reset-ids : (ps : List TablePlayer) → player_ids (reset_street ps) ≡ player_ids ps
unfolding reset_street
reset-ids [] = refl
reset-ids (p ∷ ps) = ap (λ ids. p.id ∷ ids) (reset-ids ps)

reset-length : (ps : List TablePlayer) → length (reset_street ps) ≡ length ps
unfolding reset_street
reset-length ps = length-map clear_street ps

reset-seats : (ps : List TablePlayer) → seats (reset_street ps) ≡ seats ps
unfolding reset_street
reset-seats [] = refl
reset-seats (p ∷ ps) = ap (λ ns. p.seat ∷ ns) (reset-seats ps)

reset-button :
    (n : ℕ) (ps : List TablePlayer)
    → any (λ p. p.seat == n) (reset_street ps) ≡ any (λ p. p.seat == n) ps
unfolding reset_street
reset-button n [] = refl
reset-button n (p ∷ ps) = ap (λ b. p.seat == n || b) (reset-button n ps)

reset-ok : (ps : List TablePlayer) → All PlayerOk ps → All PlayerOk (reset_street ps)
unfolding reset_street
reset-ok ps k =
    All-map-imp PlayerOk PlayerOk clear_street ps
      (λ p h. record {
        street = omega arith;
        active_funded = h.active_funded;
        all_in_spent = h.all_in_spent;
      })
      k

reset-max : (ps : List TablePlayer) → max_of (street_commitments (reset_street ps)) ≡ 0
unfolding reset_street
reset-max [] = refl
reset-max (p ∷ ps) = omega (arith, reset-max ps)

reset-actives : (ps : List TablePlayer) → length (actives (reset_street ps)) ≡ length (actives ps)
unfolding reset_street
reset-actives [] = refl
reset-actives (p ∷ ps) = ground (arith, reset-actives ps)

reset-dealt :
    (holes : List (String × List Card)) (ps : List TablePlayer)
    → all (λ p. not (participated p) || has_two_cards holes p.id) (reset_street ps)
      ≡ all (λ p. not (participated p) || has_two_cards holes p.id) ps
unfolding reset_street
reset-dealt holes [] = refl
reset-dealt holes (p ∷ ps) =
    ap (λ b. (not (participated p) || has_two_cards holes p.id) && b) (reset-dealt holes ps)

-- Dealing makes no state card-backed that was not.
deal_board-backed :
    (s : TableState) (phase : BettingPhase)
    → is_card_backed s ≡ false
    → deal_board s phase ≡ (s.board, s.deck)
unfolding deal_board deal_street
deal_board-backed s phase h = ground arith

dealt-join : (b c : Bool) → c ≡ true → (not b || c) ≡ true
dealt-join b c h = ground arith

dealt-unbacked : (b c : Bool) → b ≡ false → (not b || c) ≡ true
dealt-unbacked b c h = ground arith

next_street-dealt :
    (s : TableState) (a : Acted) → dealt_in (middle s a) ≡ true → dealt_in (next_street s a) ≡ true
unfolding next_street
next_street-dealt s a dealt =
    let q = λ (p : TablePlayer). not (participated p) || has_two_cards s.hole_cards p.id in
    elim (Bool-cases (is_card_backed s)) [
      | inl e ↦
          let every : all q a.players ≡ true = ground (arith, e, dealt) in
          dealt-join (is_card_backed (next_street s a)) _
            (reset-dealt s.hole_cards a.players ∙ every)
      | inr e ↦
          dealt-unbacked (is_card_backed (next_street s a)) _
            (rw (deal_board-backed s (next_phase s.phase) e, next_street) e)
    ]

pub next_street-Inv :
    (s : TableState) (a : Acted)
    → Ready s a
    → 1 < length (actives a.players)
    → Inv (next_street s a) × Stocked (next_street s a)
unfolding next_street
next_street-Inv s a r many =
    let v = r.core in
    let phase = next_phase s.phase in
    let players = reset_street a.players in
    let ids = reset-ids a.players in
    let sizes : length a.players ≡ length players = sym (reset-length a.players) in
    let (fits, stocked) = deal_street-fits s.phase s.board s.deck r.live v.board_fits r.stocked in
    let (consistent, distinct) = deal_board-cards s phase v.cards_consistent v.cards_distinct in
    let unique : Unique ◌===◌ (player_ids players) = subst (Unique ◌===◌) (sym ids) v.ids_unique in
    let ok_players = reset-ok a.players v.players_ok in
    let some_active : 0 < length (actives players) = omega (arith, reset-actives a.players) in
    let (p, found, acts) =
      next_active-ok players s.button_seat s.actor_id unique ok_players some_active in
    (
      record {
        core = record {
          at_least_two = rw (← sizes) v.at_least_two;
          at_most_nine = rw (← sizes) v.at_most_nine;
          ids_unique = unique;
          seats_unique = subst (Unique nat_eq) (sym (reset-seats a.players)) v.seats_unique;
          button = reset-button s.button_seat a.players ∙ v.button;
          small_positive = v.small_positive;
          blinds_rise = v.blinds_rise;
          raise_positive = omega (arith, v.blinds_rise);
          players_ok = ok_players;
          bet_covers = omega (arith, reset-max a.players);
          owners_known =
              known-join _ [] (player_ids (actives players)) [] refl
                (Known-filter is_active players) refl;
          board_fits = unfold deal_board in fits;
          holes_ok = subst (λ l. check_holes l s.hole_cards ≡ ok tt) (sym ids) v.holes_ok;
          participants_dealt = next_street-dealt s a v.participants_dealt;
          cards_consistent = consistent;
          cards_distinct = distinct;
        };
        actor_ok = (p, found, ground (arith, acts));
      },
      unfold deal_board in stocked,
    )

closed-actives : (b : Bool) (n : ℕ) → (ltb 1 n && b) ≡ true → 1 < n
closed-actives b n h = ground arith

-- The end of a turn keeps every invariant, and leaves enough cards.
pub finish_or_pass_action-Inv :
    (s : TableState) (a : Acted) (seat : ℕ) (es : List GameEvent)
    → Ready s a
    → Inv (finish_or_pass_action s a seat es).state
      × Stocked (finish_or_pass_action s a seat es).state
unfolding finish_or_pass_action
finish_or_pass_action-Inv s a seat es r =
    elim (Bool-cases (is_hand_closed a.players s.current_bet)) [
      | inl closed ↦ rw closed (finish_hand-Inv s a r, unfold finish_hand in r.stocked)
      | inr going ↦
          elim (Bool-cases (is_street_closed a.players a.acted_player_ids s.current_bet)) [
            | inl street_done ↦
                rw (going, street_done)
                  (next_street-Inv s a r
                    (closed-actives _ _ (unfold is_street_closed in street_done)))
            | inr open_street ↦
                rw (going, open_street)
                  (pass_action-Inv s a seat r going, unfold pass_action in r.stocked)
          ]
    ]
