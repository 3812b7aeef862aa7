-- ===== src/Engine/Players/Mapped.antt =====
-- A change of every player that keeps ids and seats.
use porker_monorepo.Base.{
  All-map-imp, All-max_of, Bool-cases, List, String, Unique, [], all, any, ap, arith, false,
  includes, inl, inr, keys, length, length-map, map, max_of-All, not, ok, refl, some, subst, sym,
  true, ℕ, ◌++◌, ◌===◌, ◌==◌, ◌||◌, ◌∙◌, ◌∷◌, ◌≡◌, ◌≤◌,
}
use porker_monorepo.Engine.Cards.{Card}
use porker_monorepo.Engine.Invariants.{
  check_holes, has_two_cards, is_card_backed, nat_eq, participated, seats,
}
use porker_monorepo.Engine.Invariants.Facts.{Core, PlayerOk}
use porker_monorepo.Engine.Table.{TablePlayer, TableState, player_ids, player_of}

module _ (f : TablePlayer → TablePlayer) (same_id : (x : TablePlayer) → (f x).id ≡ x.id)
    (same_seat : (x : TablePlayer) → (f x).seat ≡ x.seat) where
  pub mapped-ids : (ps : List TablePlayer) → player_ids (map f ps) ≡ player_ids ps
  mapped-ids [] = refl
  mapped-ids (p ∷ ps) = cc (same_id p, mapped-ids ps)

  pub mapped-seats : (ps : List TablePlayer) → seats (map f ps) ≡ seats ps
  mapped-seats [] = refl
  mapped-seats (p ∷ ps) = cc (same_seat p, mapped-seats ps)

  pub mapped-button :
      (n : ℕ) (ps : List TablePlayer)
      → any (λ p. p.seat == n) (map f ps) ≡ any (λ p. p.seat == n) ps
  mapped-button n [] = refl
  mapped-button n (p ∷ ps) = rw (same_seat p, mapped-button n ps) refl

  -- A player keeps his place.
  pub mapped-player_of :
      (id : String) (ps : List TablePlayer) {p : TablePlayer}
      → player_of id ps ≡ some p
      → player_of id (map f ps) ≡ some (f p)
  mapped-player_of id [] h = cc
  mapped-player_of id (q ∷ qs) {p} h = elim (Bool-cases (q.id === id)) [
    | inl e ↦
        let e' : ((f q).id === id) ≡ true = ap (λ j. j === id) (same_id q) ∙ e in
        let same : q ≡ p = ground (arith, e) in rw e' (ap (λ x. some (f x)) same)
    | inr e ↦
        let e' : ((f q).id === id) ≡ false = ap (λ j. j === id) (same_id q) ∙ e in
        rw e' (mapped-player_of id qs {p = p} (ground (arith, e)))
  ]

-- Nobody who was dealt out comes back in.
pub mapped-dealt :
    (f : TablePlayer → TablePlayer) (holes : List (String × List Card)) (ps : List TablePlayer)
    → ((x : TablePlayer)
        → (not (participated x) || has_two_cards holes x.id) ≡ true
        → (not (participated (f x)) || has_two_cards holes (f x).id) ≡ true)
    → all (λ p. not (participated p) || has_two_cards holes p.id) ps ≡ true
    → all (λ p. not (participated p) || has_two_cards holes p.id) (map f ps) ≡ true
mapped-dealt f holes [] k h = refl
mapped-dealt f holes (p ∷ ps) k h =
    ground (arith, k p (ground arith), mapped-dealt f holes ps k (ground arith))

-- A change of every player, with new betting metadata, that keeps every invariant but the actor's.
pub mapped-Core :
    (s : TableState) (f : TablePlayer → TablePlayer) (version top : ℕ) (acted rights : List String)
    (last : List (String × ℕ))
    → ((x : TablePlayer) → (f x).id ≡ x.id)
    → ((x : TablePlayer) → (f x).seat ≡ x.seat)
    → ((x : TablePlayer) → PlayerOk x → PlayerOk (f x))
    → ((x : TablePlayer) → x.street_committed ≤ s.current_bet → (f x).street_committed ≤ top)
    → (is_card_backed s ≡ true
        → (x : TablePlayer) → (not (participated x) || has_two_cards s.hole_cards x.id) ≡ true
        → (not (participated (f x)) || has_two_cards s.hole_cards (f x).id) ≡ true)
    → all (includes (player_ids s.players)) (acted ++ (rights ++ keys last)) ≡ true
    → Core s
    → Core (record s {
      version = version;
      current_bet = top;
      players = map f s.players;
      acted_player_ids = acted;
      raise_rights = rights;
      last_acted_bet = last;
    })
mapped-Core s f version top acted rights last same_id same_seat keeps_ok keeps_bet keeps_dealt known
      v =
    let ids = mapped-ids f same_id same_seat s.players in
    let sizes : length s.players ≡ length (map f s.players) = sym (length-map f s.players) in
    record {
      at_least_two = rw (← sizes) v.at_least_two;
      at_most_nine = rw (← sizes) v.at_most_nine;
      ids_unique = subst (Unique ◌===◌) (sym ids) v.ids_unique;
      seats_unique =
          subst (Unique nat_eq) (sym (mapped-seats f same_id same_seat s.players)) v.seats_unique;
      button = mapped-button f same_id same_seat s.button_seat s.players ∙ v.button;
      small_positive = v.small_positive;
      blinds_rise = v.blinds_rise;
      raise_positive = v.raise_positive;
      players_ok = All-map-imp PlayerOk PlayerOk f s.players keeps_ok v.players_ok;
      bet_covers =
          All-max_of (λ x. x.street_committed) top (map f s.players)
            (All-map-imp (λ x. x.street_committed ≤ s.current_bet) (λ x. x.street_committed ≤ top) f
              s.players keeps_bet
              (max_of-All (λ x. x.street_committed) s.current_bet s.players v.bet_covers));
      owners_known =
          subst (λ l. all (includes l) (acted ++ (rights ++ keys last)) ≡ true) (sym ids) known;
      board_fits = v.board_fits;
      holes_ok = subst (λ l. check_holes l s.hole_cards ≡ ok tt) (sym ids) v.holes_ok;
      participants_dealt = elim (Bool-cases (is_card_backed s)) [
        | inl e ↦ rw e (
            mapped-dealt f s.hole_cards s.players (keeps_dealt e)
              (ground (arith, e, v.participants_dealt)))
        | inr e ↦ rw e refl
      ];
      cards_consistent = v.cards_consistent;
      cards_distinct = v.cards_distinct;
    }
