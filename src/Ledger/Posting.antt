-- ===== src/Ledger/Posting.antt =====
-- packages/db/src/ledger.ts: preparing and posting a transaction.
use porker_monorepo.Base.{
  >>=-eq-ok, Bool, Bool-cases, List, Option, String, [], ap, arith, err, guard, guard-eq-ok,
  if◌then◌else◌, inl, inr, leb, length, none, ok, ok-injective, refl, some, subst, suc, sym, true,
  zero, ℕ, ◌+◌, ◌<◌, ◌===◌, ◌∙◌, ◌∷◌, ◌≡◌, ◌≤◌,
}
use porker_monorepo.Ledger.{
  DatabaseFailure, LedgerDatabase, LedgerEntryInput, PostTransactionInput, PostedTransaction,
  PreparedTransaction, assert_matching_payload, attempt_from, check_source, get_balance,
  idempotency_conflict, invalid_ledger_entries, normalize_entries, post_prepared_transaction,
  post_unless_posted, prepare_transaction, total_of, unbalanced_transaction, upsert_accounts,
  write_conflict, write_transaction,
}
use porker_monorepo.Ledger.Integers.{is_zero, negsuc, pos, ℤ, ◌+ℤ◌}
use porker_monorepo.Ledger.Totals.{normalize_entries-sum_where, sum_where}

total_of-sum_where : (es : List LedgerEntryInput) → total_of es ≡ sum_where (λ a. true) es
total_of-sum_where [] = refl
total_of-sum_where (e ∷ es) = ap (λ r. e.amount +ℤ r) (total_of-sum_where es)

is_zero-eq : (a : ℤ) → is_zero a ≡ true → a ≡ pos 0
is_zero-eq (pos n) h = ground arith
is_zero-eq (negsuc n) h = cc

-- What a prepared transaction says: the same as the input of every account, and nothing in sum.
pub record Balanced (input : PostTransactionInput) (p : PreparedTransaction) : Type 0 where
  pub several : 2 ≤ length p.entries
  pub in_sum : sum_where (λ a. true) input.entries ≡ pos 0
  pub faithful : (q : String → Bool) → sum_where q p.entries ≡ sum_where q input.entries

-- The laws of the database: only the entries of a new transaction change the sums of the accounts.
pub record LedgerLaws {S : Type 0} (db : LedgerDatabase S) : Type 0 where
  pub upsert_keeps :
      (a b : String) (s : S) → db.account_sum a (db.upsert_account b s) ≡ db.account_sum a s
  pub create_keeps :
      (a r h : String) (s : S)
      → db.account_sum a ((db.create_transaction r h s).1) ≡ db.account_sum a s
  pub entries_add :
      (a : String) (id : ℕ) (es : List LedgerEntryInput) (s : S)
      → db.account_sum a (db.create_entries id es s)
        ≡ db.account_sum a s +ℤ sum_where (λ b. b === a) es
  pub finalize_keeps :
      (a : String) (id : ℕ) (s : S) → db.account_sum a ((db.finalize id s).1) ≡ db.account_sum a s

module _ {S : Type 0} (db : LedgerDatabase S) (digest : List (String × ℤ) → String) where
  -- A transaction is prepared only if its entries sum to zero and at least two accounts change; on
  -- any selection of accounts, the prepared entries have the sum of the input's.
  pub prepare_transaction-Balanced :
      (input : PostTransactionInput) {p : PreparedTransaction}
      → prepare_transaction db digest input ≡ ok p
      → Balanced input p
  unfolding prepare_transaction
  prepare_transaction-Balanced input {p} h =
      let es = normalize_entries input.entries in
      let (_, g1, h1) = >>=-eq-ok (guard (is_zero (total_of es)) unbalanced_transaction) _ h in
      let (_, g2, h2) = >>=-eq-ok (guard (leb 2 (length es)) invalid_ledger_entries) _ h1 in
      let zero_sum = is_zero-eq (total_of es) (guard-eq-ok _ _ g1) in
      let whole = normalize_entries-sum_where (λ a. true) input.entries in
      let same : es ≡ p.entries = ap (λ (x : PreparedTransaction). x.entries) (ok-injective h2) in
      record {
        several = subst (λ l. 2 ≤ length l) same (ground (arith, guard-eq-ok _ _ g2));
        in_sum = sym whole ∙ sym (total_of-sum_where es) ∙ zero_sum;
        faithful = λ q.
            subst (λ l. sum_where q l ≡ sum_where q input.entries) same
              (normalize_entries-sum_where q input.entries);
      }

  -- If the database reports a write conflict at `k` attempts, fewer than are left, and takes the next
  -- one, the outcome is that of posting at that attempt.
  pub attempt_from-commits :
      (failure : ℕ → Option DatabaseFailure) (seen : ℕ → S) (input : PostTransactionInput)
      (prepared : PreparedTransaction) (source : Option String) (k left attempt : ℕ)
      → k < left
      → ((i : ℕ) → i < k → failure (attempt + i) ≡ some write_conflict)
      → failure (attempt + k) ≡ none
      → attempt_from db digest failure seen input prepared source left attempt
        ≡ post_prepared_transaction db digest input prepared source (seen (attempt + k))
  unfolding attempt_from
  attempt_from-commits failure seen input prepared source k zero attempt h c f =
      absurd (omega arith)
  attempt_from-commits failure seen input prepared source zero (suc left) attempt h c f =
      let here : attempt ≡ attempt + 0 = omega arith in
      let now : failure attempt ≡ none = subst (λ n. failure n ≡ none) (sym here) f in
      rw now (ap (λ n. post_prepared_transaction db digest input prepared source (seen n)) here)
  attempt_from-commits failure seen input prepared source (suc k) (suc left) attempt h c f =
      let here : attempt + 0 ≡ attempt = omega arith in
      let now : failure attempt ≡ some write_conflict =
        subst (λ n. failure n ≡ some write_conflict) here (c 0 (omega arith)) in
      let shift : (i : ℕ) → attempt + suc i ≡ attempt + 1 + i = λ i. omega arith in
      let later =
        attempt_from-commits failure seen input prepared source k left (attempt + 1) (omega arith)
          (λ i low.
            subst (λ n. failure n ≡ some write_conflict) (shift i) (c (suc i) (omega arith)))
          (subst (λ n. failure n ≡ none) (shift k) f) in
      rw now (
        later
        ∙ ap (λ n. post_prepared_transaction db digest input prepared source (seen n))
            (sym (shift k)))

  pub upsert_accounts-sum :
      (laws : LedgerLaws db) (a : String) (es : List LedgerEntryInput) (s : S)
      → db.account_sum a (upsert_accounts db digest es s) ≡ db.account_sum a s
  unfolding upsert_accounts
  upsert_accounts-sum laws a [] s = refl
  upsert_accounts-sum laws a (e ∷ es) s =
      upsert_accounts-sum laws a es (db.upsert_account e.account_id s)
      ∙ laws.upsert_keeps a e.account_id s

  write_transaction-sum :
      (laws : LedgerLaws db) (a reference : String) (p : PreparedTransaction) (s : S)
      → db.account_sum a ((write_transaction db digest reference p s).0)
        ≡ db.account_sum a s +ℤ sum_where (λ b. b === a) p.entries
  unfolding write_transaction
  write_transaction-sum laws a reference p s =
      laws.finalize_keeps a _ _
      ∙ laws.entries_add a _ p.entries _
      ∙ ap (λ x. x +ℤ sum_where (λ b. b === a) p.entries)
          (laws.create_keeps a reference p.payload_hash s)

  -- Posting under a new reference changes the balance of every account by the sum of its prepared
  -- entries, if the database keeps its laws.
  pub post_prepared_transaction-balances :
      (laws : LedgerLaws db) (input : PostTransactionInput) (p : PreparedTransaction)
      (source : Option String) (s : S) {r : S × PostedTransaction}
      → db.find_by_reference input.reference s ≡ none
      → post_prepared_transaction db digest input p source s ≡ ok r
      → (a : String)
      → get_balance db digest a (r.0)
        ≡ get_balance db digest a s +ℤ sum_where (λ b. b === a) p.entries
  unfolding post_prepared_transaction
  post_prepared_transaction-balances laws input p source s {r} fresh h a =
      let s1 = upsert_accounts db digest p.entries s in
      let h' : post_unless_posted db digest none input p source s ≡ ok r =
        subst (λ o. post_unless_posted db digest o input p source s ≡ ok r) fresh h in
      let (_, _, h2) =
        >>=-eq-ok (check_source db digest source p.entries s1) _
          (unfold post_unless_posted in h') in
      subst
        (λ (x : S × PostedTransaction).
          db.account_sum a (x.0) ≡ db.account_sum a s +ℤ sum_where (λ b. b === a) p.entries)
        (ok-injective h2)
        (write_transaction-sum laws a input.reference p s1
          ∙ ap (λ x. x +ℤ sum_where (λ b. b === a) p.entries)
              (upsert_accounts-sum laws a p.entries s))

  once-hash :
      (p : PreparedTransaction) (s : S) (existing : PostedTransaction)
      (input : PostTransactionInput) (source : Option String)
      → post_unless_posted db digest (some existing) input p source s ≡ (
          if existing.payload_hash === p.payload_hash
          then ok (s, existing)
          else err idempotency_conflict)
  unfolding post_unless_posted assert_matching_payload
  once-hash p s existing input source =
      elim (Bool-cases (existing.payload_hash === p.payload_hash)) [
        | inl e ↦ rw e refl
        | inr e ↦ rw e refl
      ]

  pub post_prepared_transaction-once :
      (input : PostTransactionInput) (p : PreparedTransaction) (source : Option String) (s : S)
      (existing : PostedTransaction)
      → db.find_by_reference input.reference s ≡ some existing
      → post_prepared_transaction db digest input p source s ≡ (
          if existing.payload_hash === p.payload_hash
          then ok (s, existing)
          else err idempotency_conflict)
  unfolding post_prepared_transaction
  post_prepared_transaction-once input p source s existing there =
      ap (λ o. post_unless_posted db digest o input p source s) there
      ∙ once-hash p s existing input source
