-- ===== src/Store/Game/SeatSums.antt =====
-- packages/db/src/game-server.ts: sums over the seats, and what a transfer of a stack adds to them.
use Prim.Native.Char.{code}
use Prim.Native.String
use porker_monorepo.Base.{
  ===_iff, Bool, Bool-cases, List, Option, String, [], ap, append-head, arith, count_by, false,
  filter, find, inl, inr, none, not, refl, some, sym, true, ◌++◌, ◌===◌, ◌∙◌, ◌∷◌, ◌≡◌, ◌≢◌, ◌≤◌,
}
use porker_monorepo.Ledger.Integers.{int_laws, minus_ℤ, pos, ℤ, ◌+ℤ◌}
use porker_monorepo.Ledger.Totals.{part, regroup}
use porker_monorepo.Store.Game.{Seat, is_text}
use porker_monorepo.Store.Game.Seats.{points_account, table_account}

-- The sum of the stacks of the seats that a test selects.
abbrev pub stacks_of : (Seat → Bool) → List Seat → ℤ
stacks_of q [] = pos 0
stacks_of q (seat ∷ rest) = part (q seat) seat.stack +ℤ stacks_of q rest

abbrev pub is_of_user : String → Seat → Bool
is_of_user user seat = is_text seat.user_id user

pub is_text-same : (o : Option String) (v u : String) → is_text o v ≡ true → is_text o u ≡ (v === u)
is_text-same none v u h = cc
is_text-same (some w) v u h = ap (λ x. x === u) ((===_iff w v).0 h)

-- A buy-in moves from an account to a seat of the same user.
pub spent : (b : Bool) (x y a : ℤ) → x +ℤ (part b (minus_ℤ a) +ℤ pos 0) +ℤ (y +ℤ part b a) ≡ x +ℤ y
spent true x y a = omega int_laws
spent false x y a = omega int_laws

-- A stack moves from a seat to an account of the same user.
pub refunded : (x a l y : ℤ) → a +ℤ l ≡ y → x +ℤ (pos 0 +ℤ a) +ℤ l ≡ x +ℤ y
refunded x a l y h = rw (← h) (omega int_laws)

pub moved_zero : (b c : Bool) (x : ℤ) → x ≡ x +ℤ (part b (minus_ℤ (pos 0)) +ℤ part c (pos 0))
moved_zero true true x = omega int_laws
moved_zero true false x = omega int_laws
moved_zero false true x = omega int_laws
moved_zero false false x = omega int_laws

pub points-ne-table : (u r : String) → points_account u ≢ table_account r
points-ne-table u r h =
    let e =
      ap code (append-head "p" "t" "oints:" "able:" (String.◌++◌ u "") (String.◌++◌ r "") h) in
    absurd (omega arith)

pub into_table : (b : Bool) (x y a : ℤ) → x +ℤ (pos 0 +ℤ part b a) +ℤ y ≡ x +ℤ (y +ℤ part b a)
into_table true x y a = omega int_laws
into_table false x y a = omega int_laws

pub out_of_table :
    (b : Bool) (x y t a : ℤ) → part b a +ℤ t ≡ y → x +ℤ (part b (minus_ℤ a) +ℤ pos 0) +ℤ y ≡ x +ℤ t
out_of_table b x y t a h = rw (← h) (split b x t a)
  where
    split : (b : Bool) (x t a : ℤ) → x +ℤ (part b (minus_ℤ a) +ℤ pos 0) +ℤ (part b a +ℤ t) ≡ x +ℤ t
    split true x t a = omega int_laws
    split false x t a = omega int_laws

pub stacks_of-create :
    (q : Seat → Bool) (chairs : List Seat) (seat : Seat)
    → stacks_of q (chairs ++ seat ∷ []) ≡ stacks_of q chairs +ℤ part (q seat) seat.stack
stacks_of-create q [] seat = swapped (part (q seat) seat.stack)
  where
    swapped : (a : ℤ) → a +ℤ pos 0 ≡ pos 0 +ℤ a
    swapped a = omega int_laws
stacks_of-create q (s ∷ chairs) seat =
    ap (λ r. part (q s) s.stack +ℤ r) (stacks_of-create q chairs seat)
    ∙ regroup (part (q s) s.stack) (stacks_of q chairs) (part (q seat) seat.stack)

abbrev pub has_seat_id : String → Seat → Bool
has_seat_id id seat = seat.id === id

kept_all :
    (id : String) (chairs : List Seat)
    → count_by (has_seat_id id) chairs ≡ 0
    → filter (λ s. not (has_seat_id id s)) chairs ≡ chairs
kept_all id [] h = refl
kept_all id (s ∷ chairs) h = elim (Bool-cases (has_seat_id id s)) [
  | inl e ↦ absurd (ground (arith, e, h))
  | inr e ↦ rw e (ap (λ r. s ∷ r) (kept_all id chairs (ground (arith, e, h))))
]

-- When a seat is given up, the sum falls by its stack.
pub stacks_of-delete :
    (q : Seat → Bool) (p : Seat → Bool) (chairs : List Seat) {seat : Seat}
    → find p chairs ≡ some seat
    → ((id : String) → count_by (has_seat_id id) chairs ≤ 1)
    → part (q seat) seat.stack +ℤ stacks_of q (filter (λ s. not (has_seat_id seat.id s)) chairs)
      ≡ stacks_of q chairs
stacks_of-delete q p [] h once = cc
stacks_of-delete q p (s ∷ chairs) {seat} h once = elim (Bool-cases (p s)) [
  | inl e ↦
      let here : s ≡ seat = ground (arith, e, h) in
      let mine : has_seat_id seat.id s ≡ true =
        (===_iff s.id seat.id).1 (ap (λ (x : Seat). x.id) here) in
      let gone : count_by (has_seat_id seat.id) chairs ≡ 0 = ground (arith, mine, once seat.id) in
      rw (mine, kept_all seat.id chairs gone)
        (ap (λ (x : Seat). part (q x) x.stack +ℤ stacks_of q chairs) (sym here))
  | inr e ↦
      let later : find p chairs ≡ some seat = ground (arith, e, h) in
      let fewer : (id : String) → count_by (has_seat_id id) chairs ≤ 1 =
        λ id. ground (arith, once id) in
      let rest = stacks_of-delete q p chairs {seat = seat} later fewer in
      let others : has_seat_id seat.id s ≡ false = elim (Bool-cases (has_seat_id seat.id s)) [
        | inl same ↦ absurd (ground (arith, same, once seat.id, find-count p chairs later))
        | inr other ↦ other
      ] in
      rw others (
        swap (part (q seat) seat.stack) (part (q s) s.stack)
          (stacks_of q (filter (λ s. not (has_seat_id seat.id s)) chairs))
        ∙ ap (λ r. part (q s) s.stack +ℤ r) rest)
]
  where
    swap : (a b c : ℤ) → a +ℤ (b +ℤ c) ≡ b +ℤ (a +ℤ c)
    swap a b c = omega int_laws

    find-count :
        (p : Seat → Bool) (chairs : List Seat) {seat : Seat}
        → find p chairs ≡ some seat
        → 1 ≤ count_by (has_seat_id seat.id) chairs
    find-count p [] e = cc
    find-count p (s ∷ chairs) {seat} e = elim (Bool-cases (p s)) [
      | inl hit ↦
          let here : s ≡ seat = ground (arith, hit, e) in
          let mine : has_seat_id seat.id s ≡ true =
            (===_iff s.id seat.id).1 (ap (λ (x : Seat). x.id) here) in
          ground (arith, mine)
      | inr miss ↦
          let later = find-count p chairs {seat = seat} (ground (arith, miss, e)) in
          ground (arith, later)
    ]
