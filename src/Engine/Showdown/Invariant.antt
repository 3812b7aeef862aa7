-- ===== src/Engine/Showdown/Invariant.antt =====
-- pots.ts: the invariants after a settlement.
use porker_monorepo.Base.{
  ===_iff, >>=-eq-ok, Bool, Bool-cases, List, String, [], all, arith, guard, guard-eq-ok, includes,
  inl, inr, keys, length, ltb, map, not, ok, ok-injective, refl, subst, true, ℕ, ◌+◌, ◌<◌, ◌||◌,
  ◌∷◌, ◌≡◌, ◌≤◌,
}
use porker_monorepo.Engine.Cards.{Card}
use porker_monorepo.Engine.Error.{hand_not_complete}
use porker_monorepo.Engine.Invariants.{assert_invariants, has_two_cards, held_cards, participated}
use porker_monorepo.Engine.Invariants.Check.{assert_invariants_iff}
use porker_monorepo.Engine.Invariants.Facts.{Core, Inv, PlayerOk, Stocked, cards_to_come}
use porker_monorepo.Engine.Players.Mapped.{mapped-Core, mapped-player_of}
use porker_monorepo.Engine.Pots.{amount_of}
use porker_monorepo.Engine.Pots.Eligible.{participants}
use porker_monorepo.Engine.Pots.Payouts.{Booked}
use porker_monorepo.Engine.Progress.{contenders}
use porker_monorepo.Engine.Showdown.{
  paid_out, pot_total, run_out_board, run_out_state, settle_showdown, settled, showdown_state,
}
use porker_monorepo.Engine.Showdown.RunOut.{run_out_board-lem}
use porker_monorepo.Engine.Showdown.Settle.{settle_showdown-parts}
use porker_monorepo.Engine.Table.{TablePlayer, TableState, is_complete, player_ids}

-- What holds of the listed ids holds of an id that is one of them.
pub includes-all :
    (q : String → Bool) (id : String) (ids : List String)
    → all q ids ≡ true
    → includes ids id ≡ true
    → q id ≡ true
includes-all q id [] h k = cc
includes-all q id (j ∷ ids) h k = ground (arith, ===_iff j id, includes-all q id ids)

pub all-known :
    (q : String → Bool) (ids ks : List String)
    → all q ids ≡ true
    → all (includes ids) ks ≡ true
    → all q ks ≡ true
all-known q ids [] h k = refl
all-known q ids (id ∷ ks) h k = ground (arith, includes-all q id ids h, all-known q ids ks h)

all-participants :
    (q : String → Bool) (ps : List TablePlayer)
    → all (λ p. not (participated p) || q p.id) ps ≡ true
    → all q (player_ids (participants ps)) ≡ true
all-participants q [] h = refl
all-participants q (p ∷ ps) h = ground (arith, all-participants q ps)

-- Whoever is paid has his id in the record.
amount_of-keys :
    (q : String → Bool) (id : String) (m : List (String × ℕ))
    → all q (keys m) ≡ true
    → 0 < amount_of id m
    → q id ≡ true
amount_of-keys q id [] h pos = absurd (omega arith)
amount_of-keys q id ((k, v) ∷ m) h pos =
    ground (arith, ===_iff k id, amount_of-keys q id m (ground arith))

paid_out-PlayerOk : (m : List (String × ℕ)) (x : TablePlayer) → PlayerOk x → PlayerOk (paid_out m x)
paid_out-PlayerOk m x k = record {
  street = omega arith;
  active_funded = λ h. ground (arith, k.active_funded, h);
  all_in_spent = λ h. ground (arith, k.all_in_spent, h);
}

paid_out-dealt :
    (q : String → Bool) (m : List (String × ℕ)) (x : TablePlayer)
    → all q (keys m) ≡ true
    → (not (participated x) || q x.id) ≡ true
    → (not (participated (paid_out m x)) || q x.id) ≡ true
paid_out-dealt q m x h k = ground (arith, amount_of-keys q x.id m h)

run_out_board-some :
    (board deck : List Card) {bd : List Card × List Card}
    → run_out_board board deck ≡ ok bd
    → (ltb 0 (length deck) || ltb 0 (length board)) ≡ true
unfolding run_out_board
run_out_board-some [] [] h = cc
run_out_board-some [] (c ∷ deck) h = ground arith
run_out_board-some (c ∷ board) [] h = ground arith
run_out_board-some (c ∷ board) (d ∷ deck) h = ground arith

-- A board that is run out keeps all but the actor's condition.
run_out-Core :
    (s : TableState) (bd : List Card × List Card)
    → run_out_board s.board s.deck ≡ ok bd
    → is_complete s.phase ≡ true
    → Core s
    → Core (record s { board = bd.0; deck = bd.1 })
run_out-Core s bd h done v =
    let (five, cards) =
      run_out_board-lem s.board s.deck (held_cards s.hole_cards) {bd = bd} h
        (v.cards_consistent, v.cards_distinct) in
    let backed = run_out_board-some s.board s.deck {bd = bd} h in
    record {
      at_least_two = v.at_least_two;
      at_most_nine = v.at_most_nine;
      ids_unique = v.ids_unique;
      seats_unique = v.seats_unique;
      button = v.button;
      small_positive = v.small_positive;
      blinds_rise = v.blinds_rise;
      raise_positive = v.raise_positive;
      players_ok = v.players_ok;
      bet_covers = v.bet_covers;
      owners_known = v.owners_known;
      board_fits = ground (arith, five, done);
      holes_ok = v.holes_ok;
      participants_dealt = ground (arith, backed, v.participants_dealt);
      cards_consistent = cards.0;
      cards_distinct = cards.1;
    }

showdown_state-Core :
    (s : TableState) {shown : TableState}
    → showdown_state s ≡ ok shown
    → is_complete s.phase ≡ true
    → Core s
    → Core shown
unfolding showdown_state run_out_state
showdown_state-Core s {shown} h done v = elim (Bool-cases (ltb 1 (length (contenders s.players)))) [
  | inl e ↦
      let h' : run_out_state s ≡ ok shown = ground (arith, e) in
      let (dealt, ran, same) = >>=-eq-ok (run_out_board s.board s.deck) _ h' in
      let same' : record s { board = dealt.0; deck = dealt.1 } ≡ shown = ground (arith, same) in
      subst Core same' (run_out-Core s dealt ran done v)
  | inr e ↦ let same : s ≡ shown = ground (arith, e) in subst Core same v
]

-- Paying out the pots of a finished hand.
settled-Inv :
    (s : TableState) (m : List (String × ℕ))
    → is_complete s.phase ≡ true
    → Booked (participants s.players) m
    → Inv s
    → Inv (settled s m)
unfolding settled
settled-Inv s m done b v =
    let (p, found, _) = v.actor_ok in
    let q = λ (id : String). has_two_cards s.hole_cards id in
    record {
      core =
          mapped-Core s (paid_out m) (s.version + 1) 0 [] [] [] (λ x. refl) (λ x. refl)
            (paid_out-PlayerOk m) (λ x h. omega arith)
            (λ backed x h.
              paid_out-dealt q m x
                (all-known q (player_ids (participants s.players)) (keys m)
                  (all-participants q s.players (ground (arith, backed, v.participants_dealt)))
                  b.known)
                h)
            refl v.core;
      actor_ok = (
        paid_out m p,
        mapped-player_of (paid_out m) (λ x. refl) (λ x. refl) s.actor_id s.players found,
        rw done refl,
      );
    }

settle_showdown-is_complete :
    (s : TableState) {t : TableState} → settle_showdown s ≡ ok t → is_complete s.phase ≡ true
unfolding settle_showdown
settle_showdown-is_complete s h =
    let (_, done, _) = >>=-eq-ok (guard (is_complete s.phase) hand_not_complete) _ h in
    guard-eq-ok _ _ done

pub pot_total-paid_out :
    (m : List (String × ℕ)) (ps : List TablePlayer) → pot_total (map (paid_out m) ps) ≡ 0
pot_total-paid_out m [] = refl
pot_total-paid_out m (p ∷ ps) = omega (arith, pot_total-paid_out m ps)

-- On a table that passes assertInvariants, `settleShowdown` returns, where it does not throw, a table
-- that passes assertInvariants, with no chips left in the pots.
pub settle_showdown-assert_invariants :
    (s : TableState) {t : TableState}
    → settle_showdown s ≡ ok t
    → assert_invariants s ≡ ok tt
    → (assert_invariants t ≡ ok tt) × (pot_total t.players ≡ 0)
unfolding settled
settle_showdown-assert_invariants s {t} h v =
    let inv = (assert_invariants_iff s).0 v in
    let done = settle_showdown-is_complete s {t = t} h in
    let (board, deck, m, shown, same, booked, _) = settle_showdown-parts s h in
    let shown_inv : Inv (record s { board = board; deck = deck }) = record {
      core = showdown_state-Core s shown done inv.core;
      actor_ok = inv.actor_ok;
    } in
    let t_inv : Inv t = rw same (settled-Inv _ m done booked shown_inv) in
    ((assert_invariants_iff t).1 t_inv, rw same (pot_total-paid_out m s.players))

five-Stocked : (board deck : List Card) → length board ≡ 5 → cards_to_come board ≤ length deck
five-Stocked [] deck h = absurd (omega arith)
five-Stocked (a ∷ []) deck h = absurd (omega arith)
five-Stocked (a ∷ b ∷ []) deck h = absurd (omega arith)
five-Stocked (a ∷ b ∷ c ∷ []) deck h = absurd (omega arith)
five-Stocked (a ∷ b ∷ c ∷ d ∷ []) deck h = absurd (omega arith)
five-Stocked (a ∷ b ∷ c ∷ d ∷ e ∷ board) deck h = omega arith

showdown_state-Stocked :
    (s : TableState) {shown : TableState}
    → showdown_state s ≡ ok shown
    → Core s
    → Stocked s
    → Stocked shown
unfolding showdown_state run_out_state
showdown_state-Stocked s {shown} h v st =
    elim (Bool-cases (ltb 1 (length (contenders s.players)))) [
      | inl e ↦
          let h' : run_out_state s ≡ ok shown = ground (arith, e) in
          let (dealt, ran, same) = >>=-eq-ok (run_out_board s.board s.deck) _ h' in
          let (five, _) =
            run_out_board-lem s.board s.deck (held_cards s.hole_cards) {bd = dealt} ran
              (v.cards_consistent, v.cards_distinct) in
          subst Stocked (ok-injective same) (five-Stocked (dealt.0) (dealt.1) five)
      | inr e ↦ let same : s ≡ shown = ground (arith, e) in subst Stocked same st
    ]

pub settle_showdown-Stocked :
    (s : TableState) {t : TableState} → settle_showdown s ≡ ok t → Core s → Stocked s → Stocked t
unfolding settled
settle_showdown-Stocked s h v st =
    let (board, deck, m, shown, same, _, _) = settle_showdown-parts s h in
    rw same (showdown_state-Stocked s shown v st)
