-- ===== src/Engine/Pots/Payouts.antt =====
-- pots.ts: the record of payouts.
use porker_monorepo.Base.{
  ===_iff, ===_refl, Bool, Bool-cases, List, String, Unique, [], all, any, any-count, any-count-pos,
  ap, arith, count_by, false, if◌then◌else◌, includes, inl, inr, insert, keys, refl, sum_by, sym,
  true, ℕ, ◌*◌, ◌+◌, ◌===◌, ◌∙◌, ◌∷◌, ◌≡◌, ◌≤◌,
}
use porker_monorepo.Engine.Pots.{add_amount, amount_of}
use porker_monorepo.Engine.Pots.Total.{dict_total}
use porker_monorepo.Engine.Showdown.{pay_each}
use porker_monorepo.Engine.Table.{TablePlayer, player_ids}

abbrev pub Known : List TablePlayer → List String → Type 0
Known ps ids = all (includes (player_ids ps)) ids ≡ true

-- The record books each id once, and only ids of players.
pub record Booked (ps : List TablePlayer) (m : List (String × ℕ)) : Type 0 where
  pub known : Known ps (keys m)
  pub once : Unique ◌===◌ (keys m)

pub all-keys-insert :
    (q : String → Bool) (k : String) (v : ℕ) (m : List (String × ℕ))
    → q k ≡ true
    → all q (keys m) ≡ true
    → all q (keys (insert k v m)) ≡ true
all-keys-insert q k v [] hk h = ground arith
all-keys-insert q k v ((j, w) ∷ m) hk h = ground (arith, all-keys-insert q k v m hk)

count-keys-insert :
    (q : String → Bool) (k : String) (v : ℕ) (m : List (String × ℕ))
    → count_by q (keys (insert k v m))
      ≡ (if any (λ j. j === k) (keys m) then 0 else if q k then 1 else 0) + count_by q (keys m)
count-keys-insert q k v [] = refl
count-keys-insert q k v ((j, w) ∷ m) = ground (arith, count-keys-insert q k v m)

pub add_amount-Booked :
    (ps : List TablePlayer) (id : String) (n : ℕ) (m : List (String × ℕ))
    → includes (player_ids ps) id ≡ true
    → Booked ps m
    → Booked ps (add_amount id n m)
add_amount-Booked ps id n m h b = record {
  known = all-keys-insert (includes (player_ids ps)) id _ m h b.known;
  once = λ a. elim (Bool-cases (any (λ j. j === id) (keys m))) [
    | inl e ↦
        ground (arith, e, b.once a, count-keys-insert (λ j. j === a) id (amount_of id m + n) m)
    | inr e ↦ ground (
      arith,
      e,
      b.once a,
      count-keys-insert (λ j. j === a) id (amount_of id m + n) m,
      any-count (λ j. j === id) (keys m) e,
      ===_iff id a,
    )
  ];
}

pub pay_each-Booked :
    (ps : List TablePlayer) (n : ℕ) (ids : List String) (m : List (String × ℕ))
    → Known ps ids
    → Booked ps m
    → Booked ps (pay_each n ids m)
pay_each-Booked ps n [] m k b = b
pay_each-Booked ps n (id ∷ ids) m k b =
    pay_each-Booked ps n ids (add_amount id n m) (ground arith)
      (add_amount-Booked ps id n m (ground arith) b)

-- What is paid to the players by the record.
abbrev pub received : List (String × ℕ) → List TablePlayer → ℕ
received m ps = sum_by (λ p. amount_of p.id m) ps

lookup-absent :
    (k : String) (m : List (String × ℕ)) → count_by (λ j. j === k) (keys m) ≡ 0 → amount_of k m ≡ 0
lookup-absent k [] h = refl
lookup-absent k ((j, w) ∷ m) h = ground (arith, lookup-absent k m)

received-nil : (ps : List TablePlayer) → received [] ps ≡ 0
received-nil [] = refl
received-nil (p ∷ ps) = omega (arith, received-nil ps)

received-cons :
    (k : String) (v : ℕ) (m : List (String × ℕ)) (ps : List TablePlayer)
    → amount_of k m ≡ 0
    → received ((k, v) ∷ m) ps ≡ v * count_by (λ id. id === k) (player_ids ps) + received m ps
received-cons k v m [] h = omega arith
received-cons k v m (p ∷ ps) h = elim (Bool-cases (k === p.id)) [
  | inl e ↦
      let same : k ≡ p.id = (===_iff k p.id).0 e in
      let e' : (p.id === k) ≡ true = (===_iff p.id k).1 (sym same) in
      let z : amount_of p.id m ≡ 0 = ground (arith, ap (λ id. amount_of id m) same) in
      rw (e, e', z) (omega (arith, received-cons k v m ps h))
  | inr e ↦
      let e' : (p.id === k) ≡ false = ground (arith, ===_iff k p.id, ===_iff p.id k) in
      rw (e, e') (omega (arith, received-cons k v m ps h))
]

-- The players receive all that is booked.
pub received-dict_total :
    (ps : List TablePlayer) (m : List (String × ℕ))
    → Unique ◌===◌ (player_ids ps)
    → Booked ps m
    → received m ps ≡ dict_total m
received-dict_total ps [] u b = received-nil ps
received-dict_total ps ((k, v) ∷ m) u b =
    let absent : count_by (λ j. j === k) (keys m) ≡ 0 = ground (arith, b.once k, ===_refl k) in
    let rest : Booked ps m = record {
      known = ground (arith, b.known);
      once = λ a. ground (arith, b.once a);
    } in
    let there : 1 ≤ count_by (λ id. id === k) (player_ids ps) =
      any-count-pos (λ id. id === k) (player_ids ps) (ground (arith, b.known)) in
    let one : count_by (λ id. id === k) (player_ids ps) ≡ 1 = omega (arith, there, u k) in
    received-cons k v m ps (lookup-absent k m absent)
    ∙ rw one (omega (arith, received-dict_total ps m u rest))
