-- ===== src/Ledger/Transfers.antt =====
-- packages/db/src/ledger.ts: a posting from its input, and the transfers between two accounts.
use Prim.Native.String
use porker_monorepo.Base.{
  ===_ne, ===_refl, >>=-eq-ok, Bool-cases, List, Option, String, [], ap, arith, err, false, filter,
  find, guard, guard-not, if◌then◌else◌, inl, inr, leb, length, map, none, not, ok, refl, some,
  sort, suc, sym, true, ℕ, ◌===◌, ◌>>=◌, ◌∙◌, ◌∷◌, ◌≡◌, ◌≢◌,
}
use porker_monorepo.Ledger.{
  LedgerDatabase, LedgerEntryInput, PostTransactionInput, PostedTransaction, PreparedTransaction,
  account_before, amounts_by_account, check_source, covers_debit, entry_of, hash_entries,
  insufficient_funds, is_less, normalize_entries, post_prepared_transaction,
  post_transaction_in_database, post_unless_posted, prepare_transaction, total_of, transfer_of,
  upsert_accounts, write_transaction,
}
use porker_monorepo.Ledger.Integers.{int_laws, is_zero, ltb_ℤ, minus_ℤ, negsuc, pos, ℤ, ◌+ℤ◌, ◌-ℤ◌}
use porker_monorepo.Ledger.Posting.{
  LedgerLaws, post_prepared_transaction-balances, prepare_transaction-Balanced, upsert_accounts-sum,
}
use porker_monorepo.Ledger.Totals.{part, sum_where}

-- What a transfer adds to an account.
abbrev pub moved : String → String → ℤ → String → ℤ
moved from to amount account =
    part (from === account) (minus_ℤ amount) +ℤ part (to === account) amount

minus-pos : (n : ℕ) → minus_ℤ (pos (suc n)) ≡ negsuc n
unfolding ◌-ℤ◌
minus-pos n = ground arith

minus-negsuc : (n : ℕ) → minus_ℤ (negsuc n) ≡ pos (suc n)
unfolding ◌-ℤ◌
minus-negsuc n = ground arith

plus-zero : (a : ℤ) → a +ℤ pos 0 ≡ a
plus-zero a = omega int_laws

zero-plus : (a : ℤ) → pos 0 +ℤ a ≡ a
zero-plus a = omega int_laws

cancelled : (n : ℕ) → negsuc n +ℤ (pos (suc n) +ℤ pos 0) ≡ pos 0
cancelled n = omega int_laws

cancelled_other : (n : ℕ) → pos (suc n) +ℤ (negsuc n +ℤ pos 0) ≡ pos 0
cancelled_other n = omega int_laws

abbrev entry : String → ℤ → LedgerEntryInput
entry account amount = record { account_id = account; amount = amount }

-- The entries of a transfer in their normal form: by account.
abbrev pub transfer_entries : String → String → ℕ → List LedgerEntryInput
transfer_entries from to n =
    if is_less (String.compare to from)
    then entry to (pos (suc n)) ∷ entry from (negsuc n) ∷ []
    else entry from (negsuc n) ∷ entry to (pos (suc n)) ∷ []

transfer-amounts :
    (from to : String) (n : ℕ)
    → from ≢ to
    → amounts_by_account (entry from (minus_ℤ (pos (suc n))) ∷ entry to (pos (suc n)) ∷ []) []
      ≡ (from, negsuc n) ∷ (to, pos (suc n)) ∷ []
unfolding amounts_by_account
transfer-amounts from to n apart =
    let other : (from === to) ≡ false = ===_ne from to apart in simp (other, zero-plus, minus-pos)

transfer-filtered :
    (from to : String) (n : ℕ)
    → filter (λ (e : String × ℤ). not (is_zero (e.1))) ((from, negsuc n) ∷ (to, pos (suc n)) ∷ [])
      ≡ (from, negsuc n) ∷ (to, pos (suc n)) ∷ []
transfer-filtered from to n = let left : leb (suc n) 0 ≡ false = ground arith in rw left refl

transfer-sorted :
    (from to : String) (n : ℕ)
    → map entry_of (sort account_before ((from, negsuc n) ∷ (to, pos (suc n)) ∷ []))
      ≡ transfer_entries from to n
transfer-sorted from to n = elim (Bool-cases (is_less (String.compare to from))) [
  | inl e ↦ rw e refl
  | inr e ↦ rw e refl
]

normalize-transfer :
    (from to : String) (n : ℕ)
    → from ≢ to
    → normalize_entries (entry from (minus_ℤ (pos (suc n))) ∷ entry to (pos (suc n)) ∷ [])
      ≡ transfer_entries from to n
unfolding normalize_entries
normalize-transfer from to n apart =
    ap
      (λ (m : List (String × ℤ)).
        map entry_of (sort account_before (filter (λ (e : String × ℤ). not (is_zero (e.1))) m)))
      (transfer-amounts from to n apart)
    ∙ ap (λ (m : List (String × ℤ)). map entry_of (sort account_before m))
        (transfer-filtered from to n)
    ∙ transfer-sorted from to n

total-transfer : (from to : String) (n : ℕ) → total_of (transfer_entries from to n) ≡ pos 0
total-transfer from to n = elim (Bool-cases (is_less (String.compare to from))) [
  | inl e ↦ rw e (cancelled_other n)
  | inr e ↦ rw e (cancelled n)
]

length-transfer : (from to : String) (n : ℕ) → length (transfer_entries from to n) ≡ 2
length-transfer from to n = elim (Bool-cases (is_less (String.compare to from))) [
  | inl e ↦ rw e refl
  | inr e ↦ rw e refl
]

find-transfer :
    (from to : String) (n : ℕ)
    → from ≢ to
    → find (λ e. e.account_id === from) (transfer_entries from to n) ≡ some (entry from (negsuc n))
find-transfer from to n apart =
    let own : (from === from) ≡ true = ===_refl from in
    let other : (to === from) ≡ false = ===_ne to from (λ e. apart (sym e)) in
    elim (Bool-cases (is_less (String.compare to from))) [
      | inl e ↦ rw (e, other, own) refl
      | inr e ↦ rw (e, own) refl
    ]

module _ {S : Type 0} (db : LedgerDatabase S) (digest : List (String × ℤ) → String) where
  -- A transaction posted under a new reference adds to every account the sum of its entries.
  pub post_transaction_in_database-adds :
      (laws : LedgerLaws db) (input : PostTransactionInput) (source : Option String) (s : S)
      {r : S × PostedTransaction}
      → db.find_by_reference input.reference s ≡ none
      → post_transaction_in_database db digest input source s ≡ ok r
      → (a : String)
      → db.account_sum a (r.0) ≡ db.account_sum a s +ℤ sum_where (λ b. b === a) input.entries
  unfolding post_transaction_in_database
  post_transaction_in_database-adds laws input source s {r} fresh h a =
      let (p, prepared, posted) = >>=-eq-ok (prepare_transaction db digest input) _ h in
      let balanced = prepare_transaction-Balanced db digest input {p = p} prepared in
      post_prepared_transaction-balances db digest laws input p source s {r = r} fresh posted a
      ∙ ap (λ t. db.account_sum a s +ℤ t) (balanced.faithful (λ b. b === a))

  abbrev prepared_transfer : String → String → ℕ → PreparedTransaction
  prepared_transfer from to n = record {
    entries = transfer_entries from to n;
    payload_hash = hash_entries db digest (transfer_entries from to n);
  }

  prepare-transfer :
      (reference from to : String) (n : ℕ)
      → from ≢ to
      → prepare_transaction db digest (transfer_of db digest reference from to (pos (suc n)))
        ≡ ok (prepared_transfer from to n)
  unfolding prepare_transaction
  prepare-transfer reference from to n apart =
      let normal = normalize-transfer from to n apart in
      let whole : is_zero (total_of (transfer_entries from to n)) ≡ true =
        ap is_zero (total-transfer from to n) in
      let two : leb 2 (length (transfer_entries from to n)) ≡ true =
        ap (leb 2) (length-transfer from to n) in
      rw (normal, whole, two) refl

  -- What a transfer writes, and the transaction that it returns.
  abbrev pub transferred : String → String → String → ℕ → S → S × PostedTransaction
  transferred reference from to n s =
      write_transaction db digest reference (prepared_transfer from to n)
        (upsert_accounts db digest (transfer_entries from to n) s)

  covers-transfer :
      (funds : ℤ) (from : String) (n : ℕ)
      → covers_debit db digest funds (some (entry from (negsuc n)))
        ≡ not (ltb_ℤ funds (pos (suc n)))
  unfolding covers_debit
  covers-transfer funds from n =
      let debit : ltb_ℤ (negsuc n) (pos 0) ≡ true = ground arith in rw (minus-negsuc n, debit) refl

  check-transfer :
      (laws : LedgerLaws db) (from to : String) (n : ℕ) (s : S)
      → from ≢ to
      → from ≢ ""
      → check_source db digest
          (some from)
          (transfer_entries from to n)
          (upsert_accounts db digest (transfer_entries from to n) s)
        ≡ guard (not (ltb_ℤ (db.account_sum from s) (pos (suc n)))) insufficient_funds
  unfolding check_source
  check-transfer laws from to n s apart named =
      let some_name : (from === "") ≡ false = ===_ne from "" named in
      let es = transfer_entries from to n in
      rw some_name (
        ap
          (λ o.
            guard (covers_debit db digest (db.account_sum from (upsert_accounts db digest es s)) o)
              insufficient_funds)
          (find-transfer from to n apart)
        ∙ ap
            (λ funds.
              guard (covers_debit db digest funds (some (entry from (negsuc n))))
                insufficient_funds)
            (upsert_accounts-sum db digest laws from es s)
        ∙ ap (λ b. guard b insufficient_funds) (covers-transfer (db.account_sum from s) from n))

  -- A transfer of a positive amount between two different accounts, under a new reference and with the
  -- first as its source, whose id is not empty, is posted if that account has the amount, and refused
  -- for insufficient funds if it has less.
  pub post_transaction_in_database-transfer :
      (laws : LedgerLaws db) (reference from to : String) (n : ℕ) (s : S)
      → from ≢ to
      → from ≢ ""
      → db.find_by_reference reference s ≡ none
      → post_transaction_in_database db digest
          (transfer_of db digest reference from to (pos (suc n)))
          (some from)
          s
        ≡ (if ltb_ℤ (db.account_sum from s) (pos (suc n))
            then err insufficient_funds
            else ok (transferred reference from to n s))
  unfolding post_transaction_in_database post_prepared_transaction post_unless_posted
  post_transaction_in_database-transfer laws reference from to n s apart named fresh =
      let input = transfer_of db digest reference from to (pos (suc n)) in
      let p = prepared_transfer from to n in
      ap (λ m. m >>= λ p. post_prepared_transaction db digest input p (some from) s)
        (prepare-transfer reference from to n apart)
      ∙ ap (λ o. post_unless_posted db digest o input p (some from) s) fresh
      ∙ ap (λ m. m >>= λ _. ok (transferred reference from to n s))
          (check-transfer laws from to n s apart named)
      ∙ guard-not (ltb_ℤ (db.account_sum from s) (pos (suc n))) insufficient_funds
          (transferred reference from to n s)
