-- ===== src/Ledger/Totals.antt =====
-- packages/db/src/ledger.ts: the sums over the normal form of the entries.
use porker_monorepo.Base.{
  ===_iff, Bool, Bool-cases, List, String, [], ap, arith, false, filter, inl, inr, insert,
  insert_sorted, leb, lookup, map, not, refl, sort, subst, suc, sym, true, zero, ◌===◌, ◌∙◌, ◌∷◌,
  ◌≡◌,
}
use porker_monorepo.Ledger.{
  LedgerEntryInput, account_before, amount_at, amounts_by_account, entry_of, normalize_entries,
}
use porker_monorepo.Ledger.Integers.{int_laws, is_zero, negsuc, pos, ℤ, ◌+ℤ◌}

abbrev pub part : Bool → ℤ → ℤ
part true a = a
part false a = pos 0

-- The sum of the amounts on the accounts that `q` selects.
abbrev pub sum_where : (String → Bool) → List LedgerEntryInput → ℤ
sum_where q [] = pos 0
sum_where q (e ∷ es) = part (q e.account_id) e.amount +ℤ sum_where q es

abbrev sum_pairs : (String → Bool) → List (String × ℤ) → ℤ
sum_pairs q [] = pos 0
sum_pairs q ((k, a) ∷ m) = part (q k) a +ℤ sum_pairs q m

zero_+ℤ : (a : ℤ) → pos 0 +ℤ a ≡ a
zero_+ℤ a = omega int_laws

part-add : (b : Bool) (x y r : ℤ) → part b (x +ℤ y) +ℤ r ≡ part b x +ℤ r +ℤ part b y
part-add true x y r = omega int_laws
part-add false x y r = omega int_laws

part-zero : (b : Bool) → part b (pos 0) ≡ pos 0
part-zero true = refl
part-zero false = refl

sum_pairs-insert :
    (q : String → Bool) (k : String) (a : ℤ) (m : List (String × ℤ))
    → sum_pairs q (insert k (amount_at (lookup k m) +ℤ a) m) ≡ sum_pairs q m +ℤ part (q k) a
sum_pairs-insert q k a [] = part-add (q k) (pos 0) a (pos 0) ∙ rw (part-zero (q k)) (omega int_laws)
sum_pairs-insert q k a ((j, v) ∷ m) = elim (Bool-cases (j === k)) [
  | inl e ↦
      let same : j ≡ k = (===_iff j k).0 e in
      rw e (
        subst
          (λ i.
            part (q j) (v +ℤ a) +ℤ sum_pairs q m ≡ part (q j) v +ℤ sum_pairs q m +ℤ part (q i) a)
          same (part-add (q j) v a (sum_pairs q m)))
  | inr e ↦
      let there : lookup k ((j, v) ∷ m) ≡ lookup k m = rw e refl in
      let w = amount_at (lookup k m) +ℤ a in
      let apart : sum_pairs q (insert k w ((j, v) ∷ m))
          ≡ part (q j) v +ℤ sum_pairs q (insert k w m) =
        rw e refl in
      subst
        (λ o.
          sum_pairs q (insert k (amount_at o +ℤ a) ((j, v) ∷ m))
          ≡ part (q j) v +ℤ sum_pairs q m +ℤ part (q k) a)
        (sym there) (apart ∙ rw (sum_pairs-insert q k a m) (omega int_laws))
]

amounts_by_account-sum :
    (q : String → Bool) (es : List LedgerEntryInput) (m : List (String × ℤ))
    → sum_pairs q (amounts_by_account es m) ≡ sum_pairs q m +ℤ sum_where q es
unfolding amounts_by_account
amounts_by_account-sum q [] m = omega int_laws
amounts_by_account-sum q (e ∷ es) m =
    amounts_by_account-sum q es
      (insert e.account_id (amount_at (lookup e.account_id m) +ℤ e.amount) m)
    ∙ rw (sum_pairs-insert q e.account_id e.amount m) (omega int_laws)

filter-sum :
    (q : String → Bool) (m : List (String × ℤ))
    → sum_pairs q (filter (λ e. not (is_zero (e.1))) m) ≡ sum_pairs q m
filter-sum q [] = refl
filter-sum q ((k, pos zero) ∷ m) = rw (filter-sum q m, part-zero (q k)) (omega int_laws)
filter-sum q ((k, pos (suc n)) ∷ m) =
    let some_left : leb (suc n) 0 ≡ false = ground arith in rw (some_left, filter-sum q m) refl
filter-sum q ((k, negsuc n) ∷ m) = rw (filter-sum q m) refl

insert_sorted-sum :
    (q : String → Bool) (before : String × ℤ → String × ℤ → Bool) (k : String) (a : ℤ)
    (m : List (String × ℤ))
    → sum_pairs q (insert_sorted before (k, a) m) ≡ part (q k) a +ℤ sum_pairs q m
insert_sorted-sum q before k a [] = refl
insert_sorted-sum q before k a ((j, b) ∷ m) = elim (Bool-cases (before (j, b) (k, a))) [
  | inl e ↦ rw (e, insert_sorted-sum q before k a m) (omega int_laws)
  | inr e ↦ rw e refl
]

sort-sum :
    (q : String → Bool) (before : String × ℤ → String × ℤ → Bool) (m : List (String × ℤ))
    → sum_pairs q (sort before m) ≡ sum_pairs q m
sort-sum q before [] = refl
sort-sum q before ((k, a) ∷ m) =
    insert_sorted-sum q before k a (sort before m)
    ∙ ap (λ r. part (q k) a +ℤ r) (sort-sum q before m)

entries-sum :
    (q : String → Bool) (m : List (String × ℤ)) → sum_where q (map entry_of m) ≡ sum_pairs q m
entries-sum q [] = refl
entries-sum q ((k, a) ∷ m) = ap (λ r. part (q k) a +ℤ r) (entries-sum q m)

-- On any selection of accounts, the normal form of the entries has the sum of the entries.
pub normalize_entries-sum_where :
    (q : String → Bool) (es : List LedgerEntryInput)
    → sum_where q (normalize_entries es) ≡ sum_where q es
unfolding normalize_entries
normalize_entries-sum_where q es =
    let m = amounts_by_account es [] in
    let kept = filter (λ (e : String × ℤ). not (is_zero (e.1))) m in
    entries-sum q (sort account_before kept)
    ∙ sort-sum q account_before kept
    ∙ filter-sum q m
    ∙ amounts_by_account-sum q es []
    ∙ zero_+ℤ (sum_where q es)

pub zero_first : (a : ℤ) → a ≡ pos 0 +ℤ a
zero_first a = omega int_laws

pub regroup : (a b c : ℤ) → a +ℤ (b +ℤ c) ≡ a +ℤ b +ℤ c
regroup a b c = omega int_laws
