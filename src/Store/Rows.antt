-- ===== src/Store/Rows.antt =====
-- The documented behaviour of the client on a table: a table holds rows, in the order in which they
-- were created.
use porker_monorepo.Base.{
  All, Bool, Bool-cases, List, Option, Result, String, [], ap, arith, count_by, err, false, filter,
  find, if◌then◌else◌, inl, inr, map, none, not, ok, ok-injective, refl, some, true, ◌++◌, ◌===◌,
  ◌∙◌, ◌∷◌, ◌≡◌, ◌≢◌,
}
use porker_monorepo.Ledger.{LedgerError, PostTransactionInput, PostedTransaction, transfer_of}
use porker_monorepo.Ledger.Integers.{int_laws, minus_ℤ, pos, ℤ, ◌+ℤ◌}
use porker_monorepo.Ledger.Posting.{LedgerLaws}
use porker_monorepo.Ledger.References.{ReferenceLaws, post_transaction_in_database-unused}
use porker_monorepo.Ledger.Totals.{part}
use porker_monorepo.Ledger.Transfers.{moved, post_transaction_in_database-adds}
use porker_monorepo.Store.{Database, Tables, or_ledger_error, post_in_database}

abbrev pub updated {ℓ} : {R : Type ℓ} → (R → Bool) → (R → R) → R → R
updated p f r = if p r then f r else r

pub record TableLaws {T : Type 0 → Type 0} (t : Tables T) : Type 1 where
  pub rows : {R : Type 0} → T R → List R
  pub find_rows : {R : Type 0} (p : R → Bool) (s : T R) → t.find_first p s ≡ find p (rows s)
  pub many_rows : {R : Type 0} (p : R → Bool) (s : T R) → t.find_many p s ≡ filter p (rows s)
  pub create_rows : {R : Type 0} (r : R) (s : T R) → rows (t.create r s) ≡ rows s ++ r ∷ []
  pub update_rows :
      {R : Type 0} (p : R → Bool) (f : R → R) (s : T R)
      → rows (t.update p f s) ≡ map (updated p f) (rows s)
  pub upsert_new :
      {R : Type 0} (p : R → Bool) (r : R) (f : R → R) (s : T R)
      → find p (rows s) ≡ none
      → ((t.upsert p r f s).0 ≡ r) × (rows ((t.upsert p r f s).1) ≡ rows s ++ r ∷ [])
  pub upsert_old :
      {R : Type 0} (p : R → Bool) (r : R) (f : R → R) (s : T R) {old : R}
      → find p (rows s) ≡ some old
      → ((t.upsert p r f s).0 ≡ f old) × (rows ((t.upsert p r f s).1) ≡ map (updated p f) (rows s))
  pub delete_rows :
      {R : Type 0} (p : R → Bool) (s : T R) → rows (t.delete p s) ≡ filter (λ r. not (p r)) (rows s)

-- The documented behaviour of the whole database.
pub record StoreLaws {L : Type 0} {T : Type 0 → Type 0} (d : Database L T) : Type 1 where
  pub ledger : LedgerLaws d.ledger
  pub references : ReferenceLaws d.ledger
  pub tables : TableLaws d.tables

pub or_ledger_error-ok {ℓ} :
    {A : Type ℓ} (r : Result LedgerError A) {a : A} → or_ledger_error r ≡ ok a → r ≡ ok a
or_ledger_error-ok (ok b) h = ap ok (ok-injective h)
or_ledger_error-ok (err e) h = cc

module _ {ℓ} {R : Type ℓ} where
  -- A row that the test does not select is not found.
  pub find-create_other :
      (p : R → Bool) (xs : List R) (r : R) → p r ≡ false → find p (xs ++ r ∷ []) ≡ find p xs
  find-create_other p [] r h = rw h refl
  find-create_other p (x ∷ xs) r h =
      ap (λ rest. if p x then some x else rest) (find-create_other p xs r h)

  pub find-create_self :
      (p : R → Bool) (xs : List R) (r : R)
      → find p xs ≡ none
      → p r ≡ true
      → find p (xs ++ r ∷ []) ≡ some r
  find-create_self p [] r n h = rw h refl
  find-create_self p (x ∷ xs) r n h = elim (Bool-cases (p x)) [
    | inl e ↦ absurd (ground (arith, e, n))
    | inr e ↦ rw e (find-create_self p xs r (ground (arith, e, n)) h)
  ]

  -- An update that keeps the test of a query changes what the query finds.
  pub find-updated :
      (p q : R → Bool) (f : R → R) (xs : List R) {x : R}
      → ((r : R) → q (f r) ≡ q r)
      → find q xs ≡ some x
      → find q (map (updated p f) xs) ≡ some (updated p f x)
  find-updated p q f [] keeps h = cc
  find-updated p q f (y ∷ ys) {x} keeps h =
      let same : q (updated p f y) ≡ q y = ground (arith, keeps y) in
      elim (Bool-cases (q y)) [
        | inl e ↦
            let here : y ≡ x = ground (arith, e, h) in
            rw (same, e) (ap (λ r. some (updated p f r)) here)
        | inr e ↦ rw (same, e) (find-updated p q f ys keeps (ground (arith, e, h)))
      ]

  pub find-updated-none :
      (p q : R → Bool) (f : R → R) (xs : List R)
      → ((r : R) → q (f r) ≡ q r)
      → find q xs ≡ none
      → find q (map (updated p f) xs) ≡ none
  find-updated-none p q f [] keeps h = refl
  find-updated-none p q f (y ∷ ys) keeps h =
      let same : q (updated p f y) ≡ q y = ground (arith, keeps y) in
      elim (Bool-cases (q y)) [
        | inl e ↦ absurd (ground (arith, e, h))
        | inr e ↦ rw (same, e) (find-updated-none p q f ys keeps (ground (arith, e, h)))
      ]

module _ {ℓ} {R : Type ℓ} (p q : R → Bool) (f : R → R) where
  pub count-updated :
      (xs : List R) → ((r : R) → q (f r) ≡ q r) → count_by q (map (updated p f) xs) ≡ count_by q xs
  count-updated [] keeps = refl
  count-updated (x ∷ xs) keeps = ground (arith, keeps x, count-updated xs keeps)

module _ {ℓ} {R : Type ℓ} (P : R → Type 0) (p : R → Bool) (f : R → R) where
  pub All-updated :
      (xs : List R) → ((r : R) → P r → P (f r)) → All P xs → All P (map (updated p f) xs)
  All-updated [] keeps h = tt
  All-updated (x ∷ xs) keeps h = elim (Bool-cases (p x)) [
    | inl e ↦ (rw e (keeps x h.0), All-updated xs keeps h.1)
    | inr e ↦ (rw e h.0, All-updated xs keeps h.1)
  ]

module _ {L : Type 0} {T : Type 0 → Type 0} (d : Database L T) (laws : StoreLaws d) where
  -- A transfer under a new reference moves its amount.
  pub post_in_database-moved :
      (reference from to : String) (amount : ℤ) (source : Option String) (s : L)
      {r : L × PostedTransaction}
      → d.ledger.find_by_reference reference s ≡ none
      → post_in_database d (transfer_of d.ledger d.digest reference from to amount) source s ≡ ok r
      → (a : String)
      → d.ledger.account_sum a (r.0) ≡ d.ledger.account_sum a s +ℤ moved from to amount a
  post_in_database-moved reference from to amount source s {r} fresh h a =
      let last : (x : ℤ) → x +ℤ pos 0 ≡ x = λ x. omega int_laws in
      post_transaction_in_database-adds d.ledger d.digest laws.ledger
        (transfer_of d.ledger d.digest reference from to amount) source s {r = r} fresh
        (or_ledger_error-ok _ h) a
      ∙ ap (λ x. d.ledger.account_sum a s +ℤ (part (from === a) (minus_ℤ amount) +ℤ x))
          (last (part (to === a) amount))

  pub post_in_database-unused :
      (q : String) (input : PostTransactionInput) (source : Option String) (s : L)
      {r : L × PostedTransaction}
      → q ≢ input.reference
      → d.ledger.find_by_reference q s ≡ none
      → post_in_database d input source s ≡ ok r
      → d.ledger.find_by_reference q (r.0) ≡ none
  post_in_database-unused q input source s {r} other unused h =
      post_transaction_in_database-unused d.ledger d.digest laws.references q input source s {t = r}
        other unused (or_ledger_error-ok _ h)
