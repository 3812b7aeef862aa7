-- ===== src/Ledger/Once.antt =====
-- packages/db/src/ledger.ts: posting again under a reference that was posted.
use porker_monorepo.Base.{
  ===_iff, >>=-eq-ok, List, Option, String, ap, err, guard, guard-eq-ok, if◌then◌else◌, none, ok,
  ok-injective, refl, some, subst, sym, ℕ, ◌===◌, ◌∙◌, ◌≡◌,
}
use porker_monorepo.Ledger.{
  LedgerDatabase, LedgerEntryInput, PostTransactionInput, PostedTransaction, PreparedTransaction,
  assert_matching_payload, check_source, idempotency_conflict, post_prepared_transaction,
  post_unless_posted, upsert_accounts, write_transaction,
}
use porker_monorepo.Ledger.Integers.{ℤ}
use porker_monorepo.Ledger.Posting.{post_prepared_transaction-once}
use porker_monorepo.Ledger.References.{ReferenceLaws, upsert_accounts-unused}

-- A transaction with this id and this hash of its payload is found under the reference.
abbrev pub Holds : {S : Type 0} → LedgerDatabase S → String → ℕ → String → S → Type 0
Holds db r id h s =
    (t : PostedTransaction) × (db.find_by_reference r s ≡ some t)
    × (t.id ≡ id)
    × (t.payload_hash ≡ h)

-- The laws of the database: a transaction that is created is found under its reference, also when its
-- entries are added and when it is finalized.
pub record HoldsLaws {S : Type 0} (db : LedgerDatabase S) : Type 0 where
  pub create_holds :
      (r h : String) (s : S)
      → db.find_by_reference r s ≡ none
      → Holds db r ((db.create_transaction r h s).0) h ((db.create_transaction r h s).1)
  pub entries_hold :
      (r h : String) (id : ℕ) (es : List LedgerEntryInput) (s : S)
      → Holds db r id h s
      → Holds db r id h (db.create_entries id es s)
  pub finalize_holds :
      (r h : String) (id : ℕ) (s : S) → Holds db r id h s → Holds db r id h ((db.finalize id s).1)
  pub finalize_id : (id : ℕ) (s : S) → ((db.finalize id s).0).id ≡ id

module _ {S : Type 0} (db : LedgerDatabase S) (digest : List (String × ℤ) → String) where
  write_transaction-Holds :
      (laws : HoldsLaws db) (r : String) (p : PreparedTransaction) (s : S)
      → db.find_by_reference r s ≡ none
      → Holds db r
          (((write_transaction db digest r p s).1).id)
          p.payload_hash
          ((write_transaction db digest r p s).0)
  unfolding write_transaction
  write_transaction-Holds laws r p s fresh =
      let id = (db.create_transaction r p.payload_hash s).0 in
      let s1 = (db.create_transaction r p.payload_hash s).1 in
      let s2 = db.create_entries id p.entries s1 in
      subst (λ i. Holds db r i p.payload_hash ((db.finalize id s2).1))
        (sym (laws.finalize_id id s2))
        (laws.finalize_holds r p.payload_hash id s2 (
          laws.entries_hold r p.payload_hash id p.entries s1
            (laws.create_holds r p.payload_hash s fresh)))

  post_unless_posted-Holds :
      (unused : ReferenceLaws db) (laws : HoldsLaws db) (found : Option PostedTransaction)
      (input : PostTransactionInput) (p : PreparedTransaction) (source : Option String) (s : S)
      {r : S × PostedTransaction}
      → db.find_by_reference input.reference s ≡ found
      → post_unless_posted db digest found input p source s ≡ ok r
      → Holds db input.reference ((r.1).id) p.payload_hash (r.0)
  unfolding post_unless_posted assert_matching_payload
  post_unless_posted-Holds unused laws (some existing) input p source s {r} there h =
      let (_, matches, same) =
        >>=-eq-ok (assert_matching_payload db digest existing p.payload_hash) _ h in
      let (_, agree, returned) =
        >>=-eq-ok (guard (existing.payload_hash === p.payload_hash) idempotency_conflict) _
          matches in
      subst
        (λ (x : S × PostedTransaction). Holds db input.reference ((x.1).id) p.payload_hash (x.0))
        (ap (λ x. (s, x)) (ok-injective returned) ∙ ok-injective same)
        (
          existing,
          there,
          refl,
          (===_iff existing.payload_hash p.payload_hash).0 (guard-eq-ok _ _ agree),
        )
  post_unless_posted-Holds unused laws none input p source s {r} there h =
      let s1 = upsert_accounts db digest p.entries s in
      let (_, _, written) = >>=-eq-ok (check_source db digest source p.entries s1) _ h in
      subst
        (λ (x : S × PostedTransaction). Holds db input.reference ((x.1).id) p.payload_hash (x.0))
        (ok-injective written)
        (write_transaction-Holds laws input.reference p s1
          (upsert_accounts-unused db digest unused input.reference p.entries s there))

  -- What a later request under the reference of a posted transaction does.
  abbrev pub IsTaken :
      PreparedTransaction
      → S × PostedTransaction
      → PostTransactionInput
      → PreparedTransaction
      → Option String
      → Type 0
  IsTaken p r later q source =
      (again : PostedTransaction) × (again.id ≡ (r.1).id)
      × (post_prepared_transaction db digest later q source (r.0) ≡ (
          if p.payload_hash === q.payload_hash then ok (r.0, again) else err idempotency_conflict))

  -- Once a transaction was posted, its reference is taken: a later request under it, whatever its
  -- entries and its source, changes nothing. It is answered with the transaction of that id if the
  -- hash of its payload is the one that was posted, with no check of the source, and is refused if not.
  pub post_prepared_transaction-IsTaken :
      (unused : ReferenceLaws db) (laws : HoldsLaws db) (input : PostTransactionInput)
      (p : PreparedTransaction) (source : Option String) (s : S) {r : S × PostedTransaction}
      (later : PostTransactionInput) (q : PreparedTransaction) (later_source : Option String)
      → post_prepared_transaction db digest input p source s ≡ ok r
      → later.reference ≡ input.reference
      → IsTaken p r later q later_source
  unfolding post_prepared_transaction
  post_prepared_transaction-IsTaken unused laws input p source s {r} later q later_source h same =
      let (again, there, id, hash) =
        post_unless_posted-Holds unused laws (db.find_by_reference input.reference s) input p source
          s {r = r} refl h in
      (
        again,
        id,
        post_prepared_transaction-once db digest later q later_source (r.0) again
              (ap (λ x. db.find_by_reference x (r.0)) same ∙ there)
            ∙ ap (λ x. if x === q.payload_hash then ok (r.0, again) else err idempotency_conflict)
                hash,
      )
