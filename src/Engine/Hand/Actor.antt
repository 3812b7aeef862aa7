-- ===== src/Engine/Hand/Actor.antt =====
-- state.ts: the search for the first actor of a hand.
use native.Mathlib.Nat.{mod-lt}
use porker_monorepo.Base.{
  All, All-get, Bool, Bool-cases, List, Option, String, Unique, [], any, any-get, arith, false,
  filter, get_elem?, if◌then◌else◌, inl, inr, leb, length, ltb, none, refl, some, some-injective,
  subst, suc, sym, true, zero, ℕ, ◌+◌, ◌-◌, ◌<◌, ◌===◌, ◌==◌, ◌||◌, ◌∙◌, ◌∷◌, ◌≡◌,
}
use porker_monorepo.Engine.Hand.{first_actor, id_of, is_betting_complete, seat_after}
use porker_monorepo.Engine.Hand.Order.{seat_after-last, seat_after-lt}
use porker_monorepo.Engine.Invariants.Facts.{PlayerOk}
use porker_monorepo.Engine.Players.{player_of-get}
use porker_monorepo.Engine.Progress.{can_act}
use porker_monorepo.Engine.Table.{
  TablePlayer, complete, is_active, is_complete, player_ids, player_of, preflop,
}

-- Every player sits at the seat of his place.
abbrev pub InPlace : List TablePlayer → Type 0
InPlace ps = (k : ℕ) (p : TablePlayer) → get_elem? ps k ≡ some p → p.seat ≡ k

pub get_elem?-below :
    (ps : List TablePlayer) (k : ℕ) → k < length ps → (p : TablePlayer) × (get_elem? ps k ≡ some p)
get_elem?-below [] k h = absurd (omega arith)
get_elem?-below (p ∷ ps) zero h = (p, refl)
get_elem?-below (p ∷ ps) (suc k) h = get_elem?-below ps k (omega arith)

get_elem?-low :
    (ps : List TablePlayer) (k : ℕ) {p : TablePlayer} → get_elem? ps k ≡ some p → k < length ps
get_elem?-low [] k at = cc
get_elem?-low (q ∷ ps) zero at = omega arith
get_elem?-low (q ∷ ps) (suc k) {p} at = omega (arith, get_elem?-low ps k {p = p} at)

seat_after-below : (s n : ℕ) → s < n → seat_after s n < n
seat_after-below s n h = mod-lt (s + 1) (omega arith)

-- A player who is not active is passed over.
first_actor-step :
    (rounds : ℕ) (ps : List TablePlayer) (first s : ℕ) (a b : TablePlayer)
    → a.seat ≡ s
    → is_active a ≡ false
    → get_elem? ps (seat_after s (length ps)) ≡ some b
    → first_actor (suc rounds) ps (length ps) first (some a)
      ≡ first_actor rounds ps (length ps) first (some b)
unfolding first_actor
first_actor-step rounds ps first s a b here e next = rw (e, here, next) refl

-- The search ends with a player of the table.
pub first_actor-member :
    (rounds : ℕ) (ps : List TablePlayer) (first s : ℕ) {a : TablePlayer}
    → InPlace ps
    → s < length ps
    → get_elem? ps s ≡ some a
    → (k : ℕ) × (b : TablePlayer) × (first_actor rounds ps (length ps) first (some a) ≡ some b)
      × (get_elem? ps k ≡ some b)
unfolding first_actor
first_actor-member zero ps first s {a} placed low at = (s, a, refl, at)
first_actor-member (suc rounds) ps first s {a} placed low at = elim (Bool-cases (is_active a)) [
  | inl e ↦ (s, a, rw e refl, at)
  | inr e ↦
      let here : a.seat ≡ s = placed s a at in
      let low' = seat_after-below s (length ps) low in
      let (b, next) = get_elem?-below ps (seat_after s (length ps)) low' in
      let (k, c, found, there) =
        first_actor-member rounds ps first (seat_after s (length ps)) {a = b} placed low' next in
      (k, c, rw (e, here, next) found, there)
]

-- The place that is `d` seats on from `s`, going round.
abbrev onward : ℕ → ℕ → ℕ → ℕ
onward s d n = if ltb (s + d) n then s + d else s + d - n

onward-step : (s d n : ℕ) → s < n → suc d < n → onward s (suc d) n ≡ onward (seat_after s n) d n
onward-step s d n low h = elim (Bool-cases (s + 1 == n)) [
  | inl e ↦
      let next : seat_after s n ≡ 0 = seat_after-last s n (ground (arith, e)) in
      rw next (ground (arith, e))
  | inr e ↦
      let next : seat_after s n ≡ s + 1 = seat_after-lt s n (ground (arith, e)) in
      rw next (ground (arith, e))
]

-- An active player within the rounds that are left is found, or one before him.
first_actor-finds :
    (rounds d : ℕ) (ps : List TablePlayer) (first s : ℕ) {a p : TablePlayer}
    → InPlace ps
    → s < length ps
    → d < length ps
    → d < rounds
    → get_elem? ps s ≡ some a
    → get_elem? ps (onward s d (length ps)) ≡ some p
    → is_active p ≡ true
    → (b : TablePlayer) × (first_actor rounds ps (length ps) first (some a) ≡ some b)
      × (is_active b ≡ true)
unfolding first_actor
first_actor-finds zero d ps first s placed low ld lr at there awake = absurd (omega arith)
first_actor-finds (suc rounds) zero ps first s {a} {p} placed low ld lr at there awake =
    let same : onward s 0 (length ps) ≡ s = ground arith in
    let is_a : a ≡ p = ground (arith, subst (λ k. get_elem? ps k ≡ some p) same there) in
    (a, ground (arith, is_a), ground (arith, is_a))
first_actor-finds (suc rounds) (suc d) ps first s {a} {p} placed low ld lr at there awake =
    elim (Bool-cases (is_active a)) [
      | inl e ↦ (a, rw e refl, e)
      | inr e ↦
          let here : a.seat ≡ s = placed s a at in
          let low' = seat_after-below s (length ps) low in
          let (b, next) = get_elem?-below ps (seat_after s (length ps)) low' in
          let step = onward-step s d (length ps) low ld in
          let (c, found, acts) =
            first_actor-finds rounds d ps first (seat_after s (length ps)) {a = b} {p = p} placed
              low' (omega arith) (omega arith) next
              (subst (λ k. get_elem? ps k ≡ some p) step there) awake in
          (c, first_actor-step rounds ps first s a b here e next ∙ found, acts)
    ]

-- The search ends with a player of the table, who is active if anybody is.
pub first_actor-active :
    (ps : List TablePlayer) (s : ℕ)
    → InPlace ps
    → s < length ps
    → any is_active ps ≡ true
    → (b : TablePlayer) × (first_actor (length ps) ps (length ps) s (get_elem? ps s) ≡ some b)
      × (is_active b ≡ true)
first_actor-active ps s placed low h =
    let (a, at) = get_elem?-below ps s low in
    let (i, p, there, awake) = any-get is_active ps h in
    let below = get_elem?-low ps i there in
    let d = if leb s i then i - s else i + length ps - s in
    let reach : onward s d (length ps) ≡ i = ground arith in
    let near : d < length ps = ground arith in
    let (b, found, acts) =
      first_actor-finds (length ps) d ps s s {a = a} {p = p} placed low near near at
        (subst (λ k. get_elem? ps k ≡ some p) (sym reach) there) awake in
    (b, rw at found, acts)

filter-none :
    (q : TablePlayer → Bool) (ps : List TablePlayer) → any q ps ≡ false → length (filter q ps) ≡ 0
filter-none q [] h = refl
filter-none q (p ∷ ps) h = ground (arith, filter-none q ps)

is_betting_complete-none :
    (ps : List TablePlayer) (o : Option TablePlayer) (top : ℕ)
    → length ps ≡ 0
    → is_betting_complete ps o top ≡ true
unfolding is_betting_complete
is_betting_complete-none ps none top h = refl
is_betting_complete-none ps (some a) top h = ground (arith, h)

-- The search names a player of the table, who can act unless the betting is over.
pub first_actor-ActorOk :
    (ps : List TablePlayer) (s top : ℕ) (id : String)
    → InPlace ps
    → s < length ps
    → Unique ◌===◌ (player_ids ps)
    → All PlayerOk ps
    → let actor = first_actor (length ps) ps (length ps) s (get_elem? ps s) in
      (p : TablePlayer) × (player_of (id_of actor id) ps ≡ some p)
      × ((is_complete
              (if is_betting_complete (filter is_active ps) actor top then complete else preflop)
            || can_act p)
          ≡ true)
first_actor-ActorOk ps s top id placed low u fine =
    let (a, at) = get_elem?-below ps s low in
    let (k, b, found, there) = first_actor-member (length ps) ps s s {a = a} placed low at in
    let search = first_actor (length ps) ps (length ps) s (get_elem? ps s) in
    let found' : search ≡ some b =
      subst (λ x. first_actor (length ps) ps (length ps) s x ≡ some b) (sym at) found in
    let named : player_of (id_of search id) ps ≡ some b =
      subst (λ x. player_of (id_of x id) ps ≡ some b) (sym found') (player_of-get ps k u there) in
    elim (Bool-cases (any is_active ps)) [
      | inl e ↦
          let (c, found_c, acts) = first_actor-active ps s placed low e in
          let same : c ≡ b = some-injective (sym found_c ∙ found') in
          let ok_b : PlayerOk b = All-get PlayerOk ps k fine there in
          let able : can_act b ≡ true =
            ground (arith, subst (λ x. is_active x ≡ true) same acts, ok_b.active_funded) in
          (b, named, ground (arith, able))
      | inr e ↦
          let over : is_betting_complete (filter is_active ps) search top ≡ true =
            is_betting_complete-none (filter is_active ps) search top
              (filter-none is_active ps e) in
          (b, named, rw over refl)
    ]
