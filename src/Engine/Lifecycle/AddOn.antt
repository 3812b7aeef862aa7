-- ===== src/Engine/Lifecycle/AddOn.antt =====
-- lifecycle.ts: what an add-on changes.
use porker_monorepo.Base.{
  ===_iff, Bool-cases, List, Number, String, Unique, [], all, any, any-count-pos, ap, arith,
  count_by, false, get_elem?, includes, inl, inr, map, not, ok, or-true, refl, some, subst, sym,
  true, value_of, ℕ, ◌*◌, ◌+◌, ◌<◌, ◌===◌, ◌||◌, ◌∷◌, ◌≡◌, ◌≢◌, ◌≤◌,
}
use porker_monorepo.Engine.Cards.{Card}
use porker_monorepo.Engine.Invariants.{
  assert_invariants, has_two_cards, is_card_backed, participated,
}
use porker_monorepo.Engine.Invariants.Check.{assert_invariants_iff}
use porker_monorepo.Engine.Invariants.Facts.{Inv, PlayerOk, dealt_in}
use porker_monorepo.Engine.Lifecycle.{add_chips, add_on}
use porker_monorepo.Engine.Players.{player_of-known, seat_of-finds, seat_of-player_of}
use porker_monorepo.Engine.Players.Mapped.{mapped-Core, mapped-player_of}
use porker_monorepo.Engine.Reducer.Middle.{all-get}
use porker_monorepo.Engine.Table.{
  TablePlayer, TableState, is_complete, player_ids, player_of, total_chips,
}

-- The state after an add-on that passed its checks.
abbrev pub topped_up : TableState → String → ℕ → TableState
topped_up s id n = record s { version = s.version + 1; players = map (add_chips id n) s.players }

any-id :
    (id : String) (ps : List TablePlayer)
    → any (λ p. p.id === id) ps ≡ true
    → includes (player_ids ps) id ≡ true
any-id id [] h = cc
any-id id (p ∷ ps) h = ground (arith, any-id id ps)

pub add_on-ok :
    (s : TableState) (id : String) (amount : Number) {t : TableState}
    → add_on s id amount ≡ ok t
    → (t ≡ topped_up s id (value_of amount))
      × (0 < value_of amount)
      × (is_complete s.phase ≡ true)
      × (includes (player_ids s.players) id ≡ true)
unfolding add_on
add_on-ok s id amount h =
    (ground arith, ground arith, ground arith, any-id id s.players (ground arith))

add_chips-id : (id : String) (n : ℕ) (x : TablePlayer) → (add_chips id n x).id ≡ x.id
add_chips-id id n x = ground arith

add_chips-seat : (id : String) (n : ℕ) (x : TablePlayer) → (add_chips id n x).seat ≡ x.seat
add_chips-seat id n x = ground arith

add_chips-ok :
    (id : String) (n : ℕ) (x : TablePlayer) → 0 < n → PlayerOk x → PlayerOk (add_chips id n x)
add_chips-ok id n x pos k = ground arith

total-add_chips :
    (id : String) (n : ℕ) (ps : List TablePlayer)
    → total_chips (map (add_chips id n) ps)
      ≡ total_chips ps + n * count_by (λ j. j === id) (player_ids ps)
total-add_chips id n [] = omega arith
total-add_chips id n (p ∷ ps) = elim (Bool-cases (p.id === id)) [
  | inl e ↦ rw e (omega (arith, total-add_chips id n ps))
  | inr e ↦ rw e (omega (arith, total-add_chips id n ps))
]

-- If the ids are unique, an add-on that is accepted raises the chips on the table by its amount.
pub add_on-total_chips :
    (s : TableState) (id : String) (amount : Number) {t : TableState}
    → add_on s id amount ≡ ok t
    → Unique ◌===◌ (player_ids s.players)
    → total_chips t.players ≡ total_chips s.players + value_of amount
add_on-total_chips s id amount h u =
    let (same, pos, done, there) = add_on-ok s id amount h in
    let one : count_by (λ j. j === id) (player_ids s.players) ≡ 1 =
      omega (arith, any-count-pos _ (player_ids s.players) there, u id) in
    rw same (rw (total-add_chips id (value_of amount) s.players, one) (omega arith))

add_chips-street :
    (id : String) (n : ℕ) (x : TablePlayer) {top : ℕ}
    → x.street_committed ≤ top
    → (add_chips id n x).street_committed ≤ top
add_chips-street id n x h = ground arith

-- A player who was dealt in keeps his cards; the others keep their chips.
add_chips-dealt :
    (holes : List (String × List Card)) (id : String) (n : ℕ) (x : TablePlayer)
    → has_two_cards holes id ≡ true
    → (not (participated x) || has_two_cards holes x.id) ≡ true
    → (not (participated (add_chips id n x)) || has_two_cards holes (add_chips id n x).id) ≡ true
add_chips-dealt holes id n x two h = elim (Bool-cases (x.id === id)) [
  | inl e ↦
      let two' : has_two_cards holes x.id ≡ true =
        subst (λ j. has_two_cards holes j ≡ true) (sym ((===_iff x.id id).0 e)) two in
      rw e (rw two' (or-true _))
  | inr e ↦ rw e h
]

topped_up-Inv :
    (s : TableState) (id : String) (n : ℕ)
    → 0 < n
    → is_complete s.phase ≡ true
    → has_two_cards s.hole_cards id ≡ true
    → Inv s
    → Inv (topped_up s id n)
topped_up-Inv s id n pos done two v =
    let (p, found, _) = v.actor_ok in
    record {
      core =
          mapped-Core s (add_chips id n) (s.version + 1) s.current_bet s.acted_player_ids
            s.raise_rights s.last_acted_bet (add_chips-id id n) (add_chips-seat id n)
            (λ x k. add_chips-ok id n x pos k) (λ x h. add_chips-street id n x h)
            (λ _ x h. add_chips-dealt s.hole_cards id n x two h) v.owners_known v.core;
      actor_ok = (
        add_chips id n p,
        mapped-player_of (add_chips id n) (add_chips-id id n) (add_chips-seat id n) s.actor_id
            s.players found,
        rw done refl,
      );
    }

-- On a table that passes assertInvariants, an accepted add-on of a player who holds two cards of the
-- last hand leads to a table that passes it.
pub add_on-assert_invariants :
    (s : TableState) (id : String) (amount : Number) {t : TableState}
    → add_on s id amount ≡ ok t
    → assert_invariants s ≡ ok tt
    → has_two_cards s.hole_cards id ≡ true
    → assert_invariants t ≡ ok tt
add_on-assert_invariants s id amount {t} h v two =
    let (same, pos, done, _) = add_on-ok s id amount h in
    (assert_invariants_iff t).1
      (rw same (topped_up-Inv s id (value_of amount) pos done two ((assert_invariants_iff s).0 v)))

dealt_in-owner :
    (s : TableState) (p : TablePlayer) (i : ℕ)
    → dealt_in s ≡ true
    → is_card_backed s ≡ true
    → get_elem? s.players i ≡ some p
    → participated p ≡ true
    → has_two_cards s.hole_cards p.id ≡ true
dealt_in-owner s p i d b at part =
    let q = λ (x : TablePlayer). not (participated x) || has_two_cards s.hole_cards x.id in
    let every : all q s.players ≡ true = ground (arith, d, b) in
    ground (arith, all-get q s.players i at every, part)

-- On a table with cards out, an accepted add-on of a player who holds no two cards, whatever the
-- amount, leads to a table that assertInvariants rejects.
pub add_on-undealt :
    (s : TableState) (id : String) (amount : Number) {t : TableState}
    → add_on s id amount ≡ ok t
    → is_card_backed s ≡ true
    → has_two_cards s.hole_cards id ≡ false
    → assert_invariants t ≢ ok tt
add_on-undealt s id amount {t} h backed none_held passes =
    let (same, pos, done, there) = add_on-ok s id amount h in
    let inv = (assert_invariants_iff t).0 passes in
    let (p, found) = player_of-known id s.players there in
    let found' : player_of id t.players ≡ some (add_chips id (value_of amount) p) = rw same (
      mapped-player_of (add_chips id (value_of amount)) (add_chips-id id _) (add_chips-seat id _) id
        s.players found) in
    let (i, seat) = seat_of-player_of id t.players found' in
    let (at, own, _) = seat_of-finds id t.players seat in
    let funded : participated (add_chips id (value_of amount) p) ≡ true =
      ground (arith, pos, own, add_chips-id id (value_of amount) p, ===_iff p.id id) in
    let backed' : is_card_backed t ≡ true = rw same backed in
    let held = dealt_in-owner t _ i inv.participants_dealt backed' at funded in
    let held' : has_two_cards t.hole_cards id ≡ true =
      subst (λ j. has_two_cards t.hole_cards j ≡ true) own held in
    let same_holes : t.hole_cards ≡ s.hole_cards = ap (λ r. r.hole_cards) same in
    ground (arith, none_held, subst (λ hs. has_two_cards hs id ≡ true) same_holes held')
