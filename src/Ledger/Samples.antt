-- ===== src/Ledger/Samples.antt =====
-- packages/db/src/ledger.ts: a database of two lists, on which the ledger runs.
use porker_monorepo.Base.{
  ===_iff, ===_ne, Bool-cases, List, Option, Option-cases, String, [], ap, arith, false, filter,
  find, find_passes, inl, inr, length, map, none, refl, some, sym, true, ℕ, ◌++◌, ◌===◌, ◌==◌, ◌∙◌,
  ◌∷◌, ◌≡◌, ◌≢◌,
}
use porker_monorepo.Ledger.{LedgerDatabase, LedgerEntryInput, PostedTransaction}
use porker_monorepo.Ledger.Integers.{ℤ, ◌+ℤ◌}
use porker_monorepo.Ledger.Once.{HoldsLaws}
use porker_monorepo.Ledger.Posting.{LedgerLaws}
use porker_monorepo.Ledger.References.{ReferenceLaws}
use porker_monorepo.Ledger.Totals.{part, regroup, sum_where, zero_first}

-- A database of two tables: the transactions, and the entries with the ids of their transactions.
pub record Rows : Type 0 where
  pub transactions : List PostedTransaction
  pub entries : List (ℕ × LedgerEntryInput)

abbrev pub entry_at : ℕ × LedgerEntryInput → LedgerEntryInput
entry_at e = e.1

abbrev pub rows_sum : String → List (ℕ × LedgerEntryInput) → ℤ
rows_sum a rows = sum_where (λ b. b === a) (map entry_at rows)

abbrev pub rows_of : ℕ → List (ℕ × LedgerEntryInput) → List LedgerEntryInput
rows_of id rows = map entry_at (filter (λ e. e.0 == id) rows)

abbrev pub tagged : ℕ → List LedgerEntryInput → List (ℕ × LedgerEntryInput)
tagged id es = map (λ e. (id, e)) es

abbrev pub posted_row : ℕ → String → String → PostedTransaction
posted_row id reference hash = record {
  id = id;
  reference = reference;
  payload_hash = hash;
  entries = [];
}

abbrev pub row_or_new : Option PostedTransaction → ℕ → List LedgerEntryInput → PostedTransaction
row_or_new none id es = record { id = id; reference = ""; payload_hash = ""; entries = es }
row_or_new (some t) id es = record t { entries = es }

abbrev pub rows_database : LedgerDatabase Rows
rows_database = record {
  find_by_reference = λ r s. find (λ t. t.reference === r) s.transactions;
  upsert_account = λ a s. s;
  account_sum = λ a s. rows_sum a s.entries;
  create_transaction = λ r h s.
      let id = length s.transactions in
      (id, record s { transactions = s.transactions ++ posted_row id r h ∷ [] });
  create_entries = λ id es s. record s { entries = s.entries ++ tagged id es };
  finalize =
      λ id s. (row_or_new (find (λ t. t.id == id) s.transactions) id (rows_of id s.entries), s);
}

rows_sum-tagged :
    (a : String) (id : ℕ) (es : List LedgerEntryInput)
    → rows_sum a (tagged id es) ≡ sum_where (λ b. b === a) es
rows_sum-tagged a id [] = refl
rows_sum-tagged a id (e ∷ es) =
    ap (λ r. part (e.account_id === a) e.amount +ℤ r) (rows_sum-tagged a id es)

rows_sum-append :
    (a : String) (id : ℕ) (rows : List (ℕ × LedgerEntryInput)) (es : List LedgerEntryInput)
    → rows_sum a (rows ++ tagged id es) ≡ rows_sum a rows +ℤ sum_where (λ b. b === a) es
rows_sum-append a id [] es = rows_sum-tagged a id es ∙ zero_first (sum_where (λ b. b === a) es)
rows_sum-append a id (e ∷ rows) es =
    ap (λ r. part ((e.1).account_id === a) (e.1).amount +ℤ r) (rows_sum-append a id rows es)
    ∙ regroup (part ((e.1).account_id === a) (e.1).amount) (rows_sum a rows)
        (sum_where (λ b. b === a) es)

pub rows_laws : LedgerLaws rows_database
rows_laws = record {
  upsert_keeps = λ a b s. refl;
  create_keeps = λ a r h s. refl;
  entries_add = λ a id es s. rows_sum-append a id s.entries es;
  finalize_keeps = λ a id s. refl;
}

ref_find-create :
    (r q h : String) (n : ℕ) (ts : List PostedTransaction)
    → r ≢ q
    → find (λ t. t.reference === r) ts ≡ none
    → find (λ t. t.reference === r) (ts ++ posted_row n q h ∷ []) ≡ none
ref_find-create r q h n [] apart e =
    let other : (q === r) ≡ false = ===_ne q r (λ s. apart (sym s)) in rw other refl
ref_find-create r q h n (t ∷ ts) apart e = elim (Bool-cases (t.reference === r)) [
  | inl hit ↦ absurd (ground (arith, hit, e))
  | inr miss ↦ rw miss (ref_find-create r q h n ts apart (ground (arith, miss, e)))
]

pub rows_references : ReferenceLaws rows_database
rows_references = record {
  upsert_unused = λ r a s h. h;
  create_unused =
      λ r q h s apart e. ref_find-create r q h (length s.transactions) s.transactions apart e;
  entries_unused = λ r id es s e. e;
  finalize_unused = λ r id s e. e;
}

rows_find-create :
    (r h : String) (n : ℕ) (ts : List PostedTransaction)
    → find (λ t. t.reference === r) ts ≡ none
    → find (λ t. t.reference === r) (ts ++ posted_row n r h ∷ []) ≡ some (posted_row n r h)
rows_find-create r h n [] e = let here : (r === r) ≡ true = (===_iff r r).1 refl in rw here refl
rows_find-create r h n (t ∷ ts) e = elim (Bool-cases (t.reference === r)) [
  | inl hit ↦ absurd (ground (arith, hit, e))
  | inr miss ↦ rw miss (rows_find-create r h n ts (ground (arith, miss, e)))
]

row_or_new-id :
    (id : ℕ) (es : List LedgerEntryInput) (ts : List PostedTransaction)
    → (row_or_new (find (λ t. t.id == id) ts) id es).id ≡ id
row_or_new-id id es ts = elim (Option-cases (find (λ (t : PostedTransaction). t.id == id) ts)) [
  | inl e ↦ rw e refl
  | inr (t, e) ↦
      rw e (ground (arith, find_passes (λ (t : PostedTransaction). t.id == id) ts {x = t} e))
]

pub rows_hold : HoldsLaws rows_database
rows_hold = record {
  create_holds = λ r h s e. (
    posted_row (length s.transactions) r h,
    rows_find-create r h (length s.transactions) s.transactions e,
    refl,
    refl,
  );
  entries_hold = λ r h id es s e. e;
  finalize_holds = λ r h id s e. e;
  finalize_id = λ id s. row_or_new-id id (rows_of id s.entries) s.transactions;
}
