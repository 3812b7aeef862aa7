-- ===== src/Engine/Hand/Seats.antt =====
-- state.ts: the players of a new hand and their seats.
use porker_monorepo.Base.{
  All, List, Number, String, Unique, [], all, any, ap, arith, count_by, fraction, get_elem?,
  if◌then◌else◌, leb, length, map, map_indexed, minus, nat, positive_integer, refl, some, suc,
  sum_by, true, value_of, zero, ℕ, ◌+◌, ◌<◌, ◌==◌, ◌∷◌, ◌≡◌, ◌≤◌,
}
use porker_monorepo.Engine.Hand.{HandPlayerInput, post}
use porker_monorepo.Engine.Hand.Seating.{input_ids}
use porker_monorepo.Engine.Invariants.{nat_eq, seats}
use porker_monorepo.Engine.Invariants.Facts.{PlayerOk}
use porker_monorepo.Engine.Table.{TablePlayer, player_ids, total_chips}

abbrev pub seated : (ℕ → ℕ) → ℕ → List HandPlayerInput → List TablePlayer
seated forced i inputs =
    map_indexed (λ seat input. post input.id seat (value_of input.stack) (forced seat)) i inputs

abbrev pub stacks_total : List HandPlayerInput → ℕ
stacks_total inputs = sum_by (λ input. value_of input.stack) inputs

pub ids-seated :
    (forced : ℕ → ℕ) (i : ℕ) (inputs : List HandPlayerInput)
    → player_ids (seated forced i inputs) ≡ input_ids inputs
unfolding post
ids-seated forced i [] = refl
ids-seated forced i (x ∷ xs) = ap (λ ids. x.id ∷ ids) (ids-seated forced (suc i) xs)

pub length-seated :
    (forced : ℕ → ℕ) (i : ℕ) (inputs : List HandPlayerInput)
    → length (seated forced i inputs) ≡ length inputs
length-seated forced i [] = refl
length-seated forced i (x ∷ xs) = ap suc (length-seated forced (suc i) xs)

-- The blinds come out of the stacks.
pub total_chips-seated :
    (forced : ℕ → ℕ) (i : ℕ) (inputs : List HandPlayerInput)
    → total_chips (seated forced i inputs) ≡ stacks_total inputs
unfolding post
total_chips-seated forced i [] = refl
total_chips-seated forced i (x ∷ xs) = omega (arith, total_chips-seated forced (suc i) xs)

count-seats :
    (forced : ℕ → ℕ) (i a : ℕ) (inputs : List HandPlayerInput)
    → count_by (λ b. nat_eq b a) (seats (seated forced i inputs)) ≤ (if leb i a then 1 else 0)
unfolding post
count-seats forced i a [] = omega arith
count-seats forced i a (x ∷ xs) = ground (arith, count-seats forced (suc i) a xs)

pub seats-seated :
    (forced : ℕ → ℕ) (i : ℕ) (inputs : List HandPlayerInput)
    → Unique nat_eq (seats (seated forced i inputs))
seats-seated forced i inputs a = ground (arith, count-seats forced i a inputs)

pub button-seated :
    (forced : ℕ → ℕ) (i b : ℕ) (inputs : List HandPlayerInput)
    → i ≤ b
    → b < i + length inputs
    → any (λ p. p.seat == b) (seated forced i inputs) ≡ true
unfolding post
button-seated forced i b [] low high = absurd (omega arith)
button-seated forced i b (x ∷ xs) low high = ground (arith, button-seated forced (suc i) b xs)

post-PlayerOk :
    (id : String) (seat stack forced : ℕ) → 0 < stack → PlayerOk (post id seat stack forced)
unfolding post
post-PlayerOk id seat stack forced pos = record {
  street = omega arith;
  active_funded = λ h. ground (arith, h);
  all_in_spent = λ h. ground (arith, h);
}

pub positive_value : (n : Number) → positive_integer n ≡ true → 0 < value_of n
positive_value (nat n) h = ground arith
positive_value (minus n) h = cc
positive_value fraction h = cc

pub PlayerOk-seated :
    (forced : ℕ → ℕ) (i : ℕ) (inputs : List HandPlayerInput)
    → all positive_integer (map (λ input. input.stack) inputs) ≡ true
    → All PlayerOk (seated forced i inputs)
PlayerOk-seated forced i [] h = tt
PlayerOk-seated forced i (x ∷ xs) h = (
  post-PlayerOk x.id i (value_of x.stack) (forced i) (positive_value x.stack (ground arith)),
  PlayerOk-seated forced (suc i) xs (ground arith),
)

-- The seat of a player is his place.
pub seat-seated :
    (forced : ℕ → ℕ) (i k : ℕ) (inputs : List HandPlayerInput) {p : TablePlayer}
    → get_elem? (seated forced i inputs) k ≡ some p
    → p.seat ≡ i + k
unfolding post
seat-seated forced i k [] at = cc
seat-seated forced i zero (x ∷ xs) {p} at = ground (arith, at)
seat-seated forced i (suc k) (x ∷ xs) {p} at =
    omega (arith, seat-seated forced (suc i) k xs {p = p} at)
