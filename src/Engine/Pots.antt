-- ===== src/Engine/Pots.antt =====
-- packages/poker-engine/src/pots.ts: the main pot and the side pots, and the order of odd chips.
pub mod Eligible
pub mod Layers
pub mod Payouts
pub mod Total
use porker_monorepo.Base.{
  Bool, List, String, [], filter, if◌then◌else◌, insert, leb, length, lookup, ltb, map, max_of, not,
  sort, to_set, ℕ, ◌%◌, ◌*◌, ◌++◌, ◌+◌, ◌-◌, ◌==◌, ◌∷◌,
}
use porker_monorepo.Engine.Evaluator.{value_or_zero}
use porker_monorepo.Engine.Hand.{seat_or}
use porker_monorepo.Engine.Invariants.{nat_eq, seats}
use porker_monorepo.Engine.Table.{TablePlayer, is_folded, player_ids, player_of}

pub record Pot : Type 0 where
  pub amount : ℕ
  pub eligible : List String

pub record PotBuildResult : Type 0 where
  pub pots : List Pot
  pub refunds : List (String × ℕ)

abbrev pub lower : ℕ → ℕ → Bool
lower a b = ltb a b

-- The distinct positive commitments, from the lowest.
unfoldable pub pot_levels : List TablePlayer → List ℕ
pot_levels players =
    sort lower (filter (λ n. ltb 0 n) (to_set nat_eq (map (λ p. p.hand_committed) players)))

-- `record[id] = (record[id] ?? 0) + amount`.
abbrev pub amount_of : String → List (String × ℕ) → ℕ
amount_of id m = value_or_zero (lookup id m)

abbrev pub add_amount : String → ℕ → List (String × ℕ) → List (String × ℕ)
add_amount id n m = insert id (amount_of id m + n) m

abbrev pub contributors : ℕ → List TablePlayer → List TablePlayer
contributors level players = filter (λ p. leb level p.hand_committed) players

abbrev pub eligible_of : List TablePlayer → List String
eligible_of players = player_ids (filter (λ p. not (is_folded p)) players)

-- The body of the loop over the levels: `amount` chips from the contributors.
unfoldable pub add_level : ℕ → List TablePlayer → PotBuildResult → PotBuildResult
add_level amount [] r = record r { pots = r.pots ++ record { amount = amount; eligible = [] } ∷ [] }
add_level amount (p ∷ []) r = record r { refunds = add_amount p.id amount r.refunds }
add_level amount (p ∷ q ∷ ps) r = record r {
  pots = r.pots ++ record { amount = amount; eligible = eligible_of (p ∷ q ∷ ps) } ∷ [];
}

unfoldable pub build_levels : List TablePlayer → ℕ → List ℕ → PotBuildResult → PotBuildResult
unfolding add_level
build_levels players previous [] r = r
build_levels players previous (level ∷ levels) r =
    let paying = contributors level players in
    build_levels players level levels (add_level ((level - previous) * length paying) paying r)

unfoldable pub build_pots : List TablePlayer → PotBuildResult
unfolding pot_levels build_levels
build_pots players =
    build_levels players 0 (pot_levels players) (record { pots = []; refunds = [] })

abbrev pub seat_span : List TablePlayer → ℕ
seat_span players = max_of (seats players) + 1

abbrev pub seat_by_id : List TablePlayer → ℕ → String → ℕ
seat_by_id players button id = seat_or (player_of id players) button

-- `(seat - button + span) % span || span`; a seated button is below the span.
unfoldable pub clockwise_distance : List TablePlayer → ℕ → String → ℕ
clockwise_distance players button id =
    let distance =
      (seat_by_id players button id + seat_span players - button) % seat_span players in
    if distance == 0 then seat_span players else distance

unfoldable pub clockwise_from_left_of_button : List TablePlayer → ℕ → List String → List String
unfolding clockwise_distance
clockwise_from_left_of_button players button ids =
    sort
      (λ left right.
        ltb (clockwise_distance players button left) (clockwise_distance players button right))
      ids
