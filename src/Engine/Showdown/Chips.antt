-- ===== src/Engine/Showdown/Chips.antt =====
-- pots.ts: the chips of a pot and its winners.
use native.Mathlib.Nat.{mod-lt}
use porker_monorepo.Base.{
  >>=-eq-ok, Bool, List, String, [], all, all-append, arith, inl, inr, insert_sorted, length,
  length-append, length-sort, length-take, none, ok, refl, sort, suc, take, true, zero, ℕ, ◌%◌, ◌*◌,
  ◌+◌, ◌/◌, ◌<◌, ◌∷◌, ◌≡◌, ◌⊎◌,
}
use porker_monorepo.Engine.Evaluator.{HandScore}
use porker_monorepo.Engine.Pots.{add_amount, clockwise_from_left_of_button}
use porker_monorepo.Engine.Pots.Payouts.{Booked, Known, pay_each-Booked}
use porker_monorepo.Engine.Pots.Total.{dict_total, dict_total-add}
use porker_monorepo.Engine.Showdown.{
  Leaders, best_ids, best_ids_from, consider, pay_each, score_of, share_pot, winners_of,
}
use porker_monorepo.Engine.Table.{TablePlayer, TableState}

length-clockwise :
    (ps : List TablePlayer) (b : ℕ) (ids : List String)
    → length (clockwise_from_left_of_button ps b ids) ≡ length ids
unfolding clockwise_from_left_of_button
length-clockwise ps b ids = length-sort _ ids

pay_each-total :
    (n : ℕ) (ids : List String) (m : List (String × ℕ))
    → dict_total (pay_each n ids m) ≡ dict_total m + n * length ids
pay_each-total n [] m = omega arith
pay_each-total n (id ∷ ids) m =
    omega (arith, pay_each-total n ids (add_amount id n m), dict_total-add id n m)

-- A pot with a winner is paid out whole, the odd chips included.
pub share_pot-total :
    (ps : List TablePlayer) (b amount : ℕ) (winners : List String) (m : List (String × ℕ))
    → 0 < length winners
    → dict_total (share_pot ps b amount winners m) ≡ dict_total m + amount
unfolding share_pot
share_pot-total ps b amount winners m pos =
    let n = length winners in
    let order = clockwise_from_left_of_button ps b winners in
    let odd = pay_each-total 1 (take (amount % n) order) (pay_each (amount / n) winners m) in
    let shares = pay_each-total (amount / n) winners m in
    let fits : length (take (amount % n) order) ≡ amount % n =
      omega
        (arith, length-take (amount % n) order, length-clockwise ps b winners, mod-lt amount pos) in
    let whole : amount / n * n + amount % n ≡ amount = grind arith in omega arith

take-all :
    (q : String → Bool) (n : ℕ) (ids : List String) → all q ids ≡ true → all q (take n ids) ≡ true
take-all q zero ids h = refl
take-all q (suc n) [] h = refl
take-all q (suc n) (id ∷ ids) h = ground (arith, take-all q n ids)

insert_sorted-all :
    (q : String → Bool) (b : String → String → Bool) (x : String) (ids : List String)
    → q x ≡ true
    → all q ids ≡ true
    → all q (insert_sorted b x ids) ≡ true
insert_sorted-all q b x [] hx h = ground arith
insert_sorted-all q b x (y ∷ ys) hx h = ground (arith, insert_sorted-all q b x ys hx)

sort-all :
    (q : String → Bool) (b : String → String → Bool) (ids : List String)
    → all q ids ≡ true
    → all q (sort b ids) ≡ true
sort-all q b [] h = refl
sort-all q b (x ∷ xs) h =
    insert_sorted-all q b x (sort b xs) (ground arith) (sort-all q b xs (ground arith))

pub share_pot-Booked :
    (qs ps : List TablePlayer) (b amount : ℕ) (winners : List String) (m : List (String × ℕ))
    → Known qs winners
    → Booked qs m
    → Booked qs (share_pot ps b amount winners m)
unfolding share_pot clockwise_from_left_of_button
share_pot-Booked qs ps b amount winners m k v =
    pay_each-Booked qs 1 _ _ (take-all _ (amount % length winners) _ (sort-all _ _ winners k))
      (pay_each-Booked qs (amount / length winners) winners m k v)

-- There is a leader, or nobody has been considered yet; and the leaders are of the known ids.
consider-winners :
    (id : String) (s : HandScore) (l : Leaders)
    → (l.best ≡ none) ⊎ (0 < length l.winners)
    → 0 < length (consider id s l).winners
unfolding consider
consider-winners id s l h = ground (arith, length-append l.winners (id ∷ []))

consider-all :
    (q : String → Bool) (id : String) (s : HandScore) (l : Leaders)
    → q id ≡ true
    → all q l.winners ≡ true
    → all q (consider id s l).winners ≡ true
unfolding consider
consider-all q id s l hi h = ground (arith, all-append q l.winners (id ∷ []))

best_ids_from-winners :
    (q : String → Bool) (state : TableState) (ids : List String) (l : Leaders) {ws : List String}
    → best_ids_from state ids l ≡ ok ws
    → all q ids ≡ true
    → all q l.winners ≡ true
    → 0 < length l.winners
    → (0 < length ws) × (all q ws ≡ true)
unfolding best_ids_from
best_ids_from-winners q state [] l {ws} h k kl some_leader =
    let same : ws ≡ l.winners = ground (arith, h) in rw same (some_leader, kl)
best_ids_from-winners q state (id ∷ ids) l {ws} h k kl some_leader =
    let (s, _, rest) = >>=-eq-ok (score_of state id) _ h in
    best_ids_from-winners q state ids (consider id s l) {ws = ws} rest (ground arith)
      (consider-all q id s l (ground arith) kl) (consider-winners id s l (inr some_leader))

-- A pot that is paid has a winner, and only eligible players win it.
pub winners_of-winners :
    (q : String → Bool) (state : TableState) (ids : List String) {ws : List String}
    → winners_of state ids ≡ ok ws
    → all q ids ≡ true
    → (0 < length ws) × (all q ws ≡ true)
unfolding winners_of best_ids best_ids_from
winners_of-winners q state [] h k = cc
winners_of-winners q state (id ∷ []) {ws} h k =
    let same : ws ≡ id ∷ [] = ground (arith, h) in rw same (omega arith, k)
winners_of-winners q state (id ∷ id' ∷ ids) {ws} h k =
    let start : Leaders = record { best = none; winners = [] } in
    let (s, _, rest) = >>=-eq-ok (score_of state id) _ h in
    best_ids_from-winners q state (id' ∷ ids) (consider id s start) {ws = ws} rest (ground arith)
      (consider-all q id s start (ground arith) refl) (consider-winners id s start (inl refl))
