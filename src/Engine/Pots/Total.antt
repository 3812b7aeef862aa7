-- ===== src/Engine/Pots/Total.antt =====
-- pots.ts: the sum of the pots and refunds of `buildPots`.
use porker_monorepo.Base.{
  ==_iff, All, All-imp, Bool, Bool-cases, List, String, Unique, [], any, any-filter, any-sort,
  any-to_set, arith, count-filter-le, count-sort, count-to_set-le, count_by, filter, inl, inr,
  insert_sorted, leb, leb→le, length, ltb, ltb→lt, map, refl, sort, subst, sum_by, sum_by-append,
  to_set, true, ℕ, ◌*◌, ◌+◌, ◌-◌, ◌<◌, ◌∙◌, ◌∷◌, ◌≡◌, ◌≤◌, ◌⊎◌,
}
use porker_monorepo.Engine.Invariants.{nat_eq}
use porker_monorepo.Engine.Pots.{
  PotBuildResult, add_amount, add_level, build_levels, build_pots, contributors, eligible_of, lower,
  pot_levels,
}
use porker_monorepo.Engine.Showdown.{pot_total}
use porker_monorepo.Engine.Table.{TablePlayer}

abbrev pub dict_total : List (String × ℕ) → ℕ
dict_total m = sum_by (λ e. e.1) m

abbrev pub pots_total : PotBuildResult → ℕ
pots_total r = sum_by (λ p. p.amount) r.pots + dict_total r.refunds

pub dict_total-add :
    (id : String) (n : ℕ) (m : List (String × ℕ))
    → dict_total (add_amount id n m) ≡ dict_total m + n
dict_total-add id n [] = omega arith
dict_total-add id n ((j, w) ∷ m) = ground (arith, dict_total-add id n m)

add_level-total :
    (n : ℕ) (paying : List TablePlayer) (r : PotBuildResult)
    → pots_total (add_level n paying r) ≡ pots_total r + n
unfolding add_level
add_level-total n [] r =
    omega (arith, sum_by-append (λ p. p.amount) r.pots (record { amount = n; eligible = [] } ∷ []))
add_level-total n (p ∷ []) r = omega (arith, dict_total-add p.id n r.refunds)
add_level-total n (p ∷ q ∷ ps) r = omega (
  arith,
  sum_by-append (λ p. p.amount) r.pots
      (record { amount = n; eligible = eligible_of (p ∷ q ∷ ps) } ∷ []),
)

-- What the players have put in above a level.
abbrev excess : ℕ → List TablePlayer → ℕ
excess level ps = sum_by (λ p. p.hand_committed - level) ps

-- The levels rise, all above `n`.
abbrev pub Ascends : ℕ → List ℕ → Type 0
Ascends n [] = Unit
Ascends n (l ∷ ls) = (n < l) × Ascends l ls

-- Every commitment above `n` is one of the levels.
abbrev pub Covers : ℕ → List ℕ → List TablePlayer → Type 0
Covers n ls ps =
    All (λ p. (p.hand_committed ≤ n) ⊎ (any (λ l. nat_eq l p.hand_committed) ls ≡ true)) ps

pub Ascends-any : (n h : ℕ) (ls : List ℕ) → Ascends n ls → any (λ l. nat_eq l h) ls ≡ true → n < h
Ascends-any n h [] a m = cc
Ascends-any n h (l ∷ ls) a m = ground (arith, Ascends-any l h ls a.1)

pub Covers-next :
    (n l : ℕ) (ls : List ℕ) (ps : List TablePlayer) → n < l → Covers n (l ∷ ls) ps → Covers l ls ps
Covers-next n l ls ps lt c =
    All-imp (λ p. (p.hand_committed ≤ n) ⊎ (any (λ k. nat_eq k p.hand_committed) (l ∷ ls) ≡ true))
      (λ p. (p.hand_committed ≤ l) ⊎ (any (λ k. nat_eq k p.hand_committed) ls ≡ true)) ps
      (λ p h. ground arith) c

-- One level: what lies between `n` and `n + d`, and what lies above.
excess-level :
    (n d : ℕ) (ls : List ℕ) (ps : List TablePlayer)
    → 0 < d
    → Ascends (n + d) ls
    → Covers n ((n + d) ∷ ls) ps
    → d * length (contributors (n + d) ps) + excess (n + d) ps ≡ excess n ps
excess-level n d ls [] pos a c = omega arith
excess-level n d ls (p ∷ ps) pos a c =
    let rest = excess-level n d ls ps pos a c.1 in
    let above = Ascends-any (n + d) p.hand_committed ls a in
    elim (Bool-cases (leb (n + d) p.hand_committed)) [
      | inl e ↦ rw e (omega (arith, rest, leb→le _ _ e))
      | inr e ↦ rw e (ground (arith, rest, e, c.0, above))
    ]

excess-none : (n : ℕ) (ps : List TablePlayer) → Covers n [] ps → excess n ps ≡ 0
excess-none n [] c = refl
excess-none n (p ∷ ps) c = ground (arith, c.0, excess-none n ps c.1)

build_levels-total :
    (ps : List TablePlayer) (n : ℕ) (ls : List ℕ) (r : PotBuildResult)
    → Ascends n ls
    → Covers n ls ps
    → pots_total (build_levels ps n ls r) ≡ pots_total r + excess n ps
unfolding build_levels
build_levels-total ps n [] r a c = omega (arith, excess-none n ps c)
build_levels-total ps n (l ∷ ls) r (lt, a) c =
    let paying = contributors l ps in
    let d = l - n in
    let e : n + d ≡ l = omega arith in
    let level : d * length paying + excess l ps ≡ excess n ps =
      subst
        (λ k.
          Ascends k ls
          → Covers n (k ∷ ls) ps
          → d * length (contributors k ps) + excess k ps ≡ excess n ps)
        e (excess-level n d ls ps (omega arith)) a c in
    omega (
      arith,
      build_levels-total ps l ls (add_level ((l - n) * length paying) paying r) a
          (Covers-next n l ls ps lt c),
      add_level-total ((l - n) * length paying) paying r,
      level,
    )

insert_sorted-Ascends :
    (n x : ℕ) (ls : List ℕ)
    → Ascends n ls
    → n < x
    → count_by (λ l. nat_eq l x) ls ≡ 0
    → Ascends n (insert_sorted lower x ls)
insert_sorted-Ascends n x [] a lt fresh = (lt, tt)
insert_sorted-Ascends n x (l ∷ ls) a lt fresh = ground (arith, insert_sorted-Ascends l x ls a.1)

sort-Ascends :
    (n : ℕ) (ls : List ℕ) → All (λ l. n < l) ls → Unique nat_eq ls → Ascends n (sort lower ls)
sort-Ascends n [] k u = tt
sort-Ascends n (l ∷ ls) k u =
    insert_sorted-Ascends n l (sort lower ls) (sort-Ascends n ls k.1 (λ a. ground (arith, u a))) k.0
      (count-sort lower (λ m. nat_eq m l) ls ∙ ground (arith, u l))

All-filter_self : (p : ℕ → Bool) (ls : List ℕ) → All (λ l. p l ≡ true) (filter p ls)
All-filter_self p [] = tt
All-filter_self p (l ∷ ls) = elim (Bool-cases (p l)) [
  | inl e ↦ rw e (e, All-filter_self p ls)
  | inr e ↦ rw e (All-filter_self p ls)
]

pub pot_levels-Ascends : (ps : List TablePlayer) → Ascends 0 (pot_levels ps)
unfolding pot_levels
pot_levels-Ascends ps =
    let hands = to_set nat_eq (map (λ p. p.hand_committed) ps) in
    sort-Ascends 0 (filter (λ n. ltb 0 n) hands)
      (All-imp (λ l. ltb 0 l ≡ true) (λ l. 0 < l) _ (λ l h. ltb→lt 0 l h)
        (All-filter_self (λ n. ltb 0 n) hands))
      (λ a. omega (
        arith,
        count-filter-le (λ b. nat_eq b a) (λ n. ltb 0 n) hands,
        count-to_set-le nat_eq ==_iff a (map (λ p. p.hand_committed) ps),
      ))

-- A positive commitment is one of the levels.
pot_levels-any :
    (h : ℕ) (ps : List TablePlayer)
    → 0 < h
    → any (λ l. nat_eq l h) (pot_levels ps) ≡ any (λ l. nat_eq l h) (map (λ p. p.hand_committed) ps)
unfolding pot_levels
pot_levels-any h ps pos =
    let hands = map (λ p. p.hand_committed) ps in
    any-sort lower (λ l. nat_eq l h) (filter (λ n. ltb 0 n) (to_set nat_eq hands))
    ∙ any-filter (λ l. nat_eq l h) (λ n. ltb 0 n) (to_set nat_eq hands) (λ l e. ground arith)
    ∙ any-to_set nat_eq ==_iff h hands

pub pot_levels-Covers-from :
    (all_players ps : List TablePlayer)
    → ((h : ℕ)
        → any (λ l. nat_eq l h) (map (λ p. p.hand_committed) ps) ≡ true
        → any (λ l. nat_eq l h) (map (λ p. p.hand_committed) all_players) ≡ true)
    → Covers 0 (pot_levels all_players) ps
pot_levels-Covers-from qs [] k = tt
pot_levels-Covers-from qs (p ∷ ps) k =
    let rest = pot_levels-Covers-from qs ps (λ h m. k h (ground (arith, m))) in
    let here = k p.hand_committed (ground arith) in
    (
      elim (Bool-cases (ltb 0 p.hand_committed)) [
        | inl e ↦ inr (pot_levels-any p.hand_committed qs (ltb→lt _ _ e) ∙ here)
        | inr e ↦ inl (ground (arith, e))
      ],
      rest,
    )

excess-zero : (ps : List TablePlayer) → excess 0 ps ≡ pot_total ps
excess-zero [] = refl
excess-zero (p ∷ ps) = omega (arith, excess-zero ps)

-- The pots and the refunds add up to what the players have put in.
pub build_pots-total : (ps : List TablePlayer) → pots_total (build_pots ps) ≡ pot_total ps
unfolding build_pots
build_pots-total ps = omega (
  arith,
  build_levels-total ps 0 (pot_levels ps) (record { pots = []; refunds = [] })
      (pot_levels-Ascends ps) (pot_levels-Covers-from ps ps (λ h m. m)),
  excess-zero ps,
)
