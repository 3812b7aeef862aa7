-- ===== src/Engine/Pots/Eligible.antt =====
-- pots.ts: who is eligible for a pot, and who gets a refund.
use porker_monorepo.Base.{
  ===_refl, All, All-filter, All-sort, All-to_set, Bool, List, String, [], all, arith, filter,
  includes, leb, length, ltb, map, not, refl, subst, true, ℕ, ◌*◌, ◌++◌, ◌-◌, ◌<◌, ◌∷◌, ◌≡◌, ◌≤◌,
}
use porker_monorepo.Engine.Invariants.{nat_eq, participated}
use porker_monorepo.Engine.Pots.{
  Pot, PotBuildResult, add_level, build_levels, build_pots, contributors, eligible_of, lower,
  pot_levels,
}
use porker_monorepo.Engine.Pots.Payouts.{Booked, Known, add_amount-Booked}
use porker_monorepo.Engine.Pots.Total.{Ascends, pot_levels-Ascends}
use porker_monorepo.Engine.Table.{TablePlayer, is_folded, player_ids}

-- The players who were dealt in, or have put chips in.
abbrev pub participants : List TablePlayer → List TablePlayer
participants ps = filter participated ps

-- Two players or more have put the chips of a pot in, at some level, and those of them who have not
-- folded are the eligible ones.
pub record FairPot (ps : List TablePlayer) (pot : Pot) : Type 0 where
  pub level : ℕ
  pub level_positive : 0 < level
  pub amount_positive : 0 < pot.amount
  pub contested : 2 ≤ length (contributors level ps)
  pub eligible_paid : pot.eligible ≡ eligible_of (contributors level ps)

pub record FairBuild (ps : List TablePlayer) (r : PotBuildResult) : Type 0 where
  pub pots_fair : All (FairPot ps) r.pots
  pub refunds_booked : Booked (participants ps) r.refunds

all-ids-filter :
    (q : String → Bool) (keep : TablePlayer → Bool) (ps : List TablePlayer)
    → all q (player_ids ps) ≡ true
    → all q (player_ids (filter keep ps)) ≡ true
all-ids-filter q keep [] h = refl
all-ids-filter q keep (p ∷ ps) h = ground (arith, all-ids-filter q keep ps)

includes-weaken :
    (x : String) (ids ys : List String)
    → all (includes ids) ys ≡ true
    → all (includes (x ∷ ids)) ys ≡ true
includes-weaken x ids [] h = refl
includes-weaken x ids (y ∷ ys) h = ground (arith, includes-weaken x ids ys)

pub includes_self : (ids : List String) → all (includes ids) ids ≡ true
includes_self [] = refl
includes_self (x ∷ ids) = ground (arith, ===_refl x, includes-weaken x ids ids (includes_self ids))

-- A selection of the players has known ids.
pub Known-filter :
    (keep : TablePlayer → Bool) (ps : List TablePlayer) → Known ps (player_ids (filter keep ps))
Known-filter keep ps =
    all-ids-filter (includes (player_ids ps)) keep ps (includes_self (player_ids ps))

includes-filter :
    (keep : TablePlayer → Bool) (id : String) (ps : List TablePlayer)
    → includes (player_ids (filter keep ps)) id ≡ true
    → includes (player_ids ps) id ≡ true
includes-filter keep id [] h = cc
includes-filter keep id (p ∷ ps) h = ground (arith, includes-filter keep id ps)

-- What is known of a selection is known of all.
pub Known-weaken :
    (keep : TablePlayer → Bool) (ps : List TablePlayer) (ids : List String)
    → Known (filter keep ps) ids
    → Known ps ids
Known-weaken keep ps [] h = refl
Known-weaken keep ps (id ∷ ids) h =
    ground (arith, includes-filter keep id ps, Known-weaken keep ps ids)

includes-cons :
    (p : TablePlayer) (ids ys : List String)
    → all (includes ids) ys ≡ true
    → all (includes (p.id ∷ ids)) (p.id ∷ ys) ≡ true
includes-cons p ids ys h = ground (arith, ===_refl p.id, includes-weaken p.id ids ys h)

-- A narrower selection is known of a wider one.
pub Known-selection :
    (keep wide : TablePlayer → Bool) (ps : List TablePlayer)
    → ((p : TablePlayer) → keep p ≡ true → wide p ≡ true)
    → Known (filter wide ps) (player_ids (filter keep ps))
Known-selection keep wide [] k = refl
Known-selection keep wide (p ∷ ps) k =
    let rest = Known-selection keep wide ps k in
    let wider =
      includes-weaken p.id (player_ids (filter wide ps)) (player_ids (filter keep ps)) rest in
    let head = includes-cons p (player_ids (filter wide ps)) (player_ids (filter keep ps)) rest in
    ground (arith, k p, wider, head, rest)

-- Whoever has paid a level takes part.
pub Known-contributors :
    (level : ℕ) (ps : List TablePlayer)
    → 0 < level
    → Known (participants ps) (player_ids (contributors level ps))
Known-contributors level ps pos =
    Known-selection (λ p. leb level p.hand_committed) participated ps (λ p h. ground arith)

pub Known-eligible :
    (level : ℕ) (ps : List TablePlayer)
    → 0 < level
    → Known (participants ps) (eligible_of (contributors level ps))
Known-eligible level ps pos =
    all-ids-filter (includes (player_ids (participants ps))) (λ p. not (is_folded p))
      (contributors level ps) (Known-contributors level ps pos)

All-append_one :
    (P : Pot → Type 0) (pots : List Pot) (pot : Pot) → All P pots → P pot → All P (pots ++ pot ∷ [])
All-append_one P [] pot k h = (h, tt)
All-append_one P (x ∷ xs) pot k h = (k.0, All-append_one P xs pot k.1 h)

add_level-FairBuild :
    (ps : List TablePlayer) (level d : ℕ) (paying : List TablePlayer) (r : PotBuildResult)
    → contributors level ps ≡ paying
    → 0 < level
    → 0 < d
    → 0 < length paying
    → FairBuild ps r
    → FairBuild ps (add_level (d * length paying) paying r)
unfolding add_level
add_level-FairBuild ps level d [] r e pl pd some_paying f = absurd (omega arith)
add_level-FairBuild ps level d (p ∷ []) r e pl pd some_paying f = record {
  pots_fair = f.pots_fair;
  refunds_booked =
      add_amount-Booked (participants ps) p.id _ r.refunds
        (ground (
          arith,
          subst (λ qs. Known (participants ps) (player_ids qs)) e (Known-contributors level ps pl),
        ))
        f.refunds_booked;
}
add_level-FairBuild ps level d (p ∷ q ∷ qs) r e pl pd some_paying f = record {
  pots_fair = All-append_one (FairPot ps) r.pots _ f.pots_fair (record {
    level = level;
    level_positive = pl;
    amount_positive = grind arith;
    contested = rw e (omega arith);
    eligible_paid = rw e refl;
  });
  refunds_booked = f.refunds_booked;
}

contributors-some :
    (qs ps : List TablePlayer)
    → ((h : ℕ) → 0 < length (contributors h ps) → 0 < length (contributors h qs))
    → All (λ h. 0 < length (contributors h qs)) (map (λ p. p.hand_committed) ps)
contributors-some qs [] k = tt
contributors-some qs (p ∷ ps) k =
    (k p.hand_committed (ground arith), contributors-some qs ps (λ h m. k h (ground arith)))

pub pot_levels-paid :
    (ps : List TablePlayer) → All (λ l. 0 < length (contributors l ps)) (pot_levels ps)
unfolding pot_levels
pot_levels-paid ps =
    let Paid = λ (l : ℕ). 0 < length (contributors l ps) in
    let hands = map (λ p. p.hand_committed) ps in
    All-sort Paid lower _ (
      All-filter Paid (λ n. ltb 0 n) _
        (All-to_set Paid nat_eq hands (contributors-some ps ps (λ h m. m))))

build_levels-FairBuild :
    (ps : List TablePlayer) (n : ℕ) (ls : List ℕ) (r : PotBuildResult)
    → Ascends n ls
    → All (λ l. 0 < length (contributors l ps)) ls
    → FairBuild ps r
    → FairBuild ps (build_levels ps n ls r)
unfolding build_levels
build_levels-FairBuild ps n [] r a k f = f
build_levels-FairBuild ps n (l ∷ ls) r a k f =
    build_levels-FairBuild ps l ls _ a.1 k.1 (
      add_level-FairBuild ps l (l - n) (contributors l ps) r refl (omega arith) (omega arith) k.0 f)

-- Each pot of `buildPots` is positive and has a level that at least two players have paid, and its
-- eligible players are those payers who have not folded; refunds go to players, and once to each.
pub build_pots-FairBuild : (ps : List TablePlayer) → FairBuild ps (build_pots ps)
unfolding build_pots
build_pots-FairBuild ps =
    build_levels-FairBuild ps 0 (pot_levels ps) _ (pot_levels-Ascends ps) (pot_levels-paid ps)
      (record { pots_fair = tt; refunds_booked = record { known = refl; once = λ a. omega arith } })
