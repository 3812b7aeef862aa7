-- ===== src/Ledger/References.antt =====
-- packages/db/src/ledger.ts: the references that are in use.
use porker_monorepo.Base.{
  >>=-eq-ok, List, Option, String, [], none, ok, ok-injective, some, subst, ℕ, ◌∷◌, ◌≡◌, ◌≢◌,
}
use porker_monorepo.Ledger.{
  LedgerDatabase, LedgerEntryInput, PostTransactionInput, PostedTransaction, PreparedTransaction,
  assert_matching_payload, check_source, post_prepared_transaction, post_transaction_in_database,
  post_unless_posted, prepare_transaction, upsert_accounts, write_transaction,
}
use porker_monorepo.Ledger.Integers.{ℤ}

-- The laws of the database: only a transaction that is created under a reference makes it used.
pub record ReferenceLaws {S : Type 0} (db : LedgerDatabase S) : Type 0 where
  pub upsert_unused :
      (r a : String) (s : S)
      → db.find_by_reference r s ≡ none
      → db.find_by_reference r (db.upsert_account a s) ≡ none
  pub create_unused :
      (r q h : String) (s : S)
      → r ≢ q
      → db.find_by_reference r s ≡ none
      → db.find_by_reference r ((db.create_transaction q h s).1) ≡ none
  pub entries_unused :
      (r : String) (id : ℕ) (es : List LedgerEntryInput) (s : S)
      → db.find_by_reference r s ≡ none
      → db.find_by_reference r (db.create_entries id es s) ≡ none
  pub finalize_unused :
      (r : String) (id : ℕ) (s : S)
      → db.find_by_reference r s ≡ none
      → db.find_by_reference r ((db.finalize id s).1) ≡ none

module _ {S : Type 0} (db : LedgerDatabase S) (digest : List (String × ℤ) → String) where
  pub upsert_accounts-unused :
      (laws : ReferenceLaws db) (r : String) (es : List LedgerEntryInput) (s : S)
      → db.find_by_reference r s ≡ none
      → db.find_by_reference r (upsert_accounts db digest es s) ≡ none
  unfolding upsert_accounts
  upsert_accounts-unused laws r [] s h = h
  upsert_accounts-unused laws r (e ∷ es) s h =
      upsert_accounts-unused laws r es (db.upsert_account e.account_id s)
        (laws.upsert_unused r e.account_id s h)

  post_unless_posted-unused :
      (laws : ReferenceLaws db) (r : String) (found : Option PostedTransaction)
      (input : PostTransactionInput) (p : PreparedTransaction) (source : Option String) (s : S)
      {t : S × PostedTransaction}
      → r ≢ input.reference
      → db.find_by_reference r s ≡ none
      → post_unless_posted db digest found input p source s ≡ ok t
      → db.find_by_reference r (t.0) ≡ none
  unfolding post_unless_posted write_transaction
  post_unless_posted-unused laws r (some existing) input p source s {t} other unused h =
      let (_, _, same) =
        >>=-eq-ok (assert_matching_payload db digest existing p.payload_hash) _ h in
      subst (λ (x : S × PostedTransaction). db.find_by_reference r (x.0) ≡ none) (ok-injective same)
        unused
  post_unless_posted-unused laws r none input p source s {t} other unused h =
      let s1 = upsert_accounts db digest p.entries s in
      let (_, _, written) = >>=-eq-ok (check_source db digest source p.entries s1) _ h in
      subst (λ (x : S × PostedTransaction). db.find_by_reference r (x.0) ≡ none)
        (ok-injective written)
        (laws.finalize_unused r _ _ (
          laws.entries_unused r _ p.entries _ (
            laws.create_unused r input.reference p.payload_hash s1 other
              (upsert_accounts-unused laws r p.entries s unused))))

  -- A reference that is not in use stays so when a transaction is posted under another.
  pub post_transaction_in_database-unused :
      (laws : ReferenceLaws db) (r : String) (input : PostTransactionInput) (source : Option String)
      (s : S) {t : S × PostedTransaction}
      → r ≢ input.reference
      → db.find_by_reference r s ≡ none
      → post_transaction_in_database db digest input source s ≡ ok t
      → db.find_by_reference r (t.0) ≡ none
  unfolding post_transaction_in_database post_prepared_transaction
  post_transaction_in_database-unused laws r input source s {t} other unused h =
      let (p, _, posted) = >>=-eq-ok (prepare_transaction db digest input) _ h in
      post_unless_posted-unused laws r (db.find_by_reference input.reference s) input p source s
        {t = t} other unused posted
