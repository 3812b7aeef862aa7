-- ===== src/Engine/Progress/Turn.antt =====
-- reducer.ts: whom `nextActivePlayer` finds.
use native.Mathlib.Nat.{mod-lt, mod-add-mod, mod-eq_of_lt, add-mod_right}
use mathlib.Core.Bool.{false≢true}
use porker_monorepo.Base.{
  Bool, Bool-cases, List, Option-cases, [], any, any-get, ap, arith, false, get_elem?, inl, inr,
  leb, leb→le, length, none, not, some, subst, suc, sym, true, zero, ℕ, ◌%◌, ◌+◌, ◌-◌, ◌<◌, ◌∙◌,
  ◌∷◌, ◌≡◌,
}
use porker_monorepo.Engine.Progress.{can_act, next_active_from, next_active_player}
use porker_monorepo.Engine.Table.{TablePlayer}

-- Nobody can act at the index, if anybody is there.
abbrev pub idle_at : List TablePlayer → ℕ → Bool
idle_at ps i = elim (get_elem? ps i) [ none ↦ true | some p ↦ not (can_act p) ]

-- The places that the loop visits in `n` rounds, from `offset` on, are all idle.
abbrev pub IdleFrom : ℕ → ℕ → List TablePlayer → ℕ → Type 0
IdleFrom zero offset ps seat = Unit
IdleFrom (suc n) offset ps seat =
    (idle_at ps ((seat + offset) % length ps) ≡ true) × IdleFrom n (suc offset) ps seat

-- `p` stands `k` places on, he can act, and the places before are idle.
pub record FirstFrom (offset : ℕ) (ps : List TablePlayer) (seat : ℕ) (p : TablePlayer)
    : Type 0 where
  pub steps : ℕ
  pub idle_before : IdleFrom steps offset ps seat
  pub stands_at : get_elem? ps ((seat + (offset + steps)) % length ps) ≡ some p
  pub acts : can_act p ≡ true

next_active_from-found :
    (n offset : ℕ) (ps : List TablePlayer) (seat : ℕ) {p : TablePlayer}
    → next_active_from n offset ps seat ≡ some p
    → FirstFrom offset ps seat p
unfolding next_active_from
next_active_from-found zero offset ps seat h = cc
next_active_from-found (suc n) offset ps seat {p} h =
    let at = (seat + offset) % length ps in
    elim (Bool-cases (idle_at ps at)) [
      | inl idle ↦
          let later =
            next_active_from-found n (suc offset) ps seat {p = p} (ground (arith, idle)) in
          let shift : offset + suc later.steps ≡ suc offset + later.steps = omega arith in
          record {
            steps = suc later.steps;
            idle_before = (idle, later.idle_before);
            stands_at = rw shift later.stands_at;
            acts = later.acts;
          }
      | inr busy ↦
          let here : offset + 0 ≡ offset = omega arith in
          record {
            steps = 0;
            idle_before = tt;
            stands_at = rw here (ground (arith, busy));
            acts = ground (arith, busy);
          }
    ]

next_active_from-none :
    (n offset : ℕ) (ps : List TablePlayer) (seat : ℕ)
    → next_active_from n offset ps seat ≡ none
    → IdleFrom n offset ps seat
unfolding next_active_from
next_active_from-none zero offset ps seat h = tt
next_active_from-none (suc n) offset ps seat h =
    (ground arith, next_active_from-none n (suc offset) ps seat (ground arith))

IdleFrom-at :
    (n offset : ℕ) (ps : List TablePlayer) (seat j : ℕ)
    → IdleFrom n offset ps seat
    → j < n
    → idle_at ps ((seat + (offset + j)) % length ps) ≡ true
IdleFrom-at zero offset ps seat j k lt = elim lt [ ]
IdleFrom-at (suc n) offset ps seat zero k lt =
    let here : offset + 0 ≡ offset = omega arith in rw here k.0
IdleFrom-at (suc n) offset ps seat (suc j) k lt =
    let shift : offset + suc j ≡ suc offset + j = omega arith in
    rw shift (IdleFrom-at n (suc offset) ps seat j k.1 (omega arith))

-- Going round `n` places from any start comes past each place `i`.
comes_past : (start n i : ℕ) → i < n → (j : ℕ) × (j < n) × ((start + j) % n ≡ i)
comes_past start n i lt =
    let r = start % n in
    let small : r < n = mod-lt start (omega arith) in
    elim (Bool-cases (leb r i)) [
      | inl e ↦
          let le = leb→le r i e in
          let sum : r + (i - r) ≡ i = omega arith in
          (
            i - r,
            omega arith,
            sym (mod-add-mod start n (i - r)) ∙ ap (λ k. k % n) sum ∙ mod-eq_of_lt lt,
          )
      | inr e ↦
          let gt : i < r = ground (arith, e) in
          let sum : r + (i + n - r) ≡ i + n = omega arith in
          (
            i + n - r,
            omega arith,
            sym (mod-add-mod start n (i + n - r))
                ∙ ap (λ k. k % n) sum
                ∙ add-mod_right i n
                ∙ mod-eq_of_lt lt,
          )
    ]

idle_at-get :
    (ps : List TablePlayer) (i : ℕ) {p : TablePlayer}
    → get_elem? ps i ≡ some p
    → idle_at ps i ≡ not (can_act p)
idle_at-get ps i h = ground arith

get_elem?-lt :
    (ps : List TablePlayer) (i : ℕ) {p : TablePlayer} → get_elem? ps i ≡ some p → i < length ps
get_elem?-lt [] i h = cc
get_elem?-lt (q ∷ qs) zero h = omega arith
get_elem?-lt (q ∷ qs) (suc i) h = omega (arith, get_elem?-lt qs i h)

-- Nobody is found only if nobody can act.
none-idle :
    (ps : List TablePlayer) (seat i : ℕ) {p : TablePlayer}
    → next_active_player ps seat ≡ none
    → get_elem? ps i ≡ some p
    → can_act p ≡ false
unfolding next_active_player
none-idle ps seat i h at =
    let idle = next_active_from-none (length ps) 1 ps seat h in
    let (j, below, there) = comes_past (seat + 1) (length ps) i (get_elem?-lt ps i at) in
    let shift : seat + 1 + j ≡ seat + (1 + j) = omega arith in
    let there' : (seat + (1 + j)) % length ps ≡ i = rw (← shift) there in
    let quiet : idle_at ps i ≡ true =
      subst (λ k. idle_at ps k ≡ true) there' (IdleFrom-at (length ps) 1 ps seat j idle below) in
    ground (arith, quiet, at)

-- From any seat, `nextActivePlayer` finds a player as soon as one can act: the first who can, going
-- round by the indices from the place after the seat, all before him being unable to act.
pub next_active_player-first :
    (ps : List TablePlayer) (seat : ℕ)
    → any can_act ps ≡ true
    → (p : TablePlayer) × (next_active_player ps seat ≡ some p) × FirstFrom 1 ps seat p
unfolding next_active_player
next_active_player-first ps seat h = elim (Option-cases (next_active_player ps seat)) [
  | inl e ↦
      let (i, p, at, acts) = any-get can_act ps h in
      absurd (false≢true (sym (none-idle ps seat i e at) ∙ acts))
  | inr (p, e) ↦ (p, e, next_active_from-found (length ps) 1 ps seat {p = p} e)
]
