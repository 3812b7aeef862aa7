-- ===== src/Engine/Players.antt =====
-- The players of a table: how a player is found, and what a change of one keeps.
pub mod Mapped
use porker_monorepo.Base.{
  ===_iff, ===_refl, Bool, Bool-cases, List, Option-cases, String, Unique, [], all, any-count-pos,
  ap, arith, count_by, filter, find_index?, find_index_from-none, find_index_from-some, get_elem?,
  includes, inl, inr, refl, some, subst, suc, sym, true, zero, ℕ, ◌===◌, ◌∙◌, ◌∷◌, ◌≡◌, ◌≤◌,
}
use porker_monorepo.Engine.Reducer.{seat_of}
use porker_monorepo.Engine.Table.{TablePlayer, player_ids, player_of}

-- What `findIndex` finds is the player whom `find` finds, at that index.
pub seat_of-finds :
    (id : String) (ps : List TablePlayer) {i : ℕ} {p : TablePlayer}
    → seat_of id ps ≡ some (i, p)
    → (get_elem? ps i ≡ some p) × (p.id ≡ id) × (player_of id ps ≡ some p)
seat_of-finds id ps {i} {p} h = elim (Option-cases (find_index? (λ q. q.id === id) ps)) [
  | inl e ↦ absurd (ground (arith, e))
  | inr (j, e) ↦
      let (k, q, ej, at, passes, found) = find_index_from-some (λ q. q.id === id) 0 ps e in
      let jk : j ≡ k = omega arith in
      let at' : get_elem? ps j ≡ some q = subst (λ n. get_elem? ps n ≡ some q) (sym jk) at in
      let same : (i ≡ j) × (q ≡ p) = ground (arith, e, at') in
      (
        rw same.0 (at' ∙ ap some same.1),
        ground (arith, same.1, (===_iff q.id id).0 passes),
        found ∙ ap some same.1,
      )
]

pub player_of-known :
    (id : String) (ps : List TablePlayer)
    → includes (player_ids ps) id ≡ true
    → (p : TablePlayer) × (player_of id ps ≡ some p)
player_of-known id [] h = cc
player_of-known id (q ∷ qs) h = elim (Bool-cases (q.id === id)) [
  | inl e ↦ (q, rw e refl)
  | inr e ↦ let (p, found) = player_of-known id qs (ground (arith, e)) in (p, rw e found)
]

pub player_of-includes :
    (id : String) (ps : List TablePlayer) {p : TablePlayer}
    → player_of id ps ≡ some p
    → includes (player_ids ps) id ≡ true
player_of-includes id [] h = cc
player_of-includes id (q ∷ qs) {p} h = elim (Bool-cases (q.id === id)) [
  | inl e ↦ rw e refl
  | inr e ↦ ground (arith, e, player_of-includes id qs {p = p})
]

-- With unique ids, the player at an index is the one whom his id finds.
pub player_of-get :
    (ps : List TablePlayer) (i : ℕ) {p : TablePlayer}
    → Unique ◌===◌ (player_ids ps)
    → get_elem? ps i ≡ some p
    → player_of p.id ps ≡ some p
player_of-get [] i u at = cc
player_of-get (q ∷ qs) zero {p} u at =
    let same : q ≡ p = ground (arith, at) in ground (arith, same, ===_refl p.id)
player_of-get (q ∷ qs) (suc i) {p} u at = elim (Bool-cases (q.id === p.id)) [
  | inl e ↦
      let found = player_of-get qs i {p = p} (λ a. ground (arith, u a)) at in
      let some_later : 1 ≤ count_by (λ b. b === p.id) (player_ids qs) =
        any-count-pos _ (player_ids qs) (player_of-includes p.id qs found) in
      absurd (ground (arith, u p.id, e, some_later))
  | inr e ↦ rw e (player_of-get qs i {p = p} (λ a. ground (arith, u a)) at)
]

pub all-ids :
    (q : String → Bool) (keep : TablePlayer → Bool) (ps : List TablePlayer)
    → all q (player_ids ps) ≡ true
    → all q (player_ids (filter keep ps)) ≡ true
all-ids q keep [] h = refl
all-ids q keep (p ∷ ps) h = ground (arith, all-ids q keep ps)

-- The player whom `find` finds has an index.
pub seat_of-player_of :
    (id : String) (ps : List TablePlayer) {p : TablePlayer}
    → player_of id ps ≡ some p
    → (i : ℕ) × (seat_of id ps ≡ some (i, p))
seat_of-player_of id ps {p} h = elim (Option-cases (find_index? (λ q. q.id === id) ps)) [
  | inl e ↦ absurd (ground (arith, find_index_from-none (λ q. q.id === id) 0 ps e))
  | inr (j, e) ↦
      let (k, q, ej, at, passes, found) = find_index_from-some (λ q. q.id === id) 0 ps {j = j} e in
      let jk : j ≡ k = omega arith in
      let at' : get_elem? ps j ≡ some q = subst (λ n. get_elem? ps n ≡ some q) (sym jk) at in
      (j, ground (arith, e, at', found))
]
