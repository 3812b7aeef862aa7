-- ===== src/Ledger.antt =====
-- packages/db/src/ledger.ts: the double-entry ledger.
pub mod Integers
pub mod Totals
pub mod Posting
pub mod Transfers
pub mod References
pub mod Once
pub mod Samples
mod Witnesses
use Prim.Native.Nat.{Ordering}
use Prim.Native.String
use porker_monorepo.Base.{
  Bool, List, Option, Result, String, [], err, false, filter, find, guard, insert, leb, length,
  lookup, map, none, not, ok, some, sort, suc, true, zero, ℕ, ◌&&◌, ◌+◌, ◌===◌, ◌>>=◌, ◌>>◌, ◌||◌,
  ◌∷◌,
}
use porker_monorepo.Ledger.Integers.{is_zero, ltb_ℤ, minus_ℤ, pos, ℤ, ◌+ℤ◌}

pub record LedgerEntryInput : Type 0 where
  pub account_id : String
  pub amount : ℤ

pub record PostTransactionInput : Type 0 where
  pub reference : String
  pub entries : List LedgerEntryInput

pub record TransferInput : Type 0 where
  pub reference : String
  pub player_account_id : String
  pub table_account_id : String
  pub amount : ℤ

pub record PreparedTransaction : Type 0 where
  pub entries : List LedgerEntryInput
  pub payload_hash : String

-- A row of the database: a transaction with its entries.
pub record PostedTransaction : Type 0 where
  pub id : ℕ
  pub reference : String
  pub payload_hash : String
  pub entries : List LedgerEntryInput

-- The errors that ledger.ts throws, and those of the database that it passes on.
pub data LedgerError : Type 0 where
  unbalanced_transaction invalid_ledger_entries idempotency_conflict : LedgerError
  idempotency_lookup_failed insufficient_funds retries_exhausted : LedgerError
  invalid_transfer_amount other_database_error : LedgerError

-- `map.get(id) ?? 0n`.
abbrev pub amount_at : Option ℤ → ℤ
amount_at none = pos 0
amount_at (some a) = a

-- The loop that adds up the amounts of each account.
unfoldable pub amounts_by_account : List LedgerEntryInput → List (String × ℤ) → List (String × ℤ)
amounts_by_account [] m = m
amounts_by_account (e ∷ es) m =
    amounts_by_account es (insert e.account_id (amount_at (lookup e.account_id m) +ℤ e.amount) m)

abbrev pub entry_of : String × ℤ → LedgerEntryInput
entry_of e = record { account_id = e.0; amount = e.1 }

abbrev pub is_less : Ordering → Bool
is_less Ordering.lt = true
is_less Ordering.eq = false
is_less Ordering.gt = false

abbrev pub account_before : String × ℤ → String × ℤ → Bool
account_before left right = is_less (String.compare (left.0) (right.0))

unfoldable pub normalize_entries : List LedgerEntryInput → List LedgerEntryInput
unfolding amounts_by_account
normalize_entries entries =
    map entry_of
      (sort account_before (filter (λ e. not (is_zero (e.1))) (amounts_by_account entries [])))

abbrev pub total_of : List LedgerEntryInput → ℤ
total_of [] = pos 0
total_of (e ∷ es) = e.amount +ℤ total_of es

-- The operations of the database client that the ledger uses, on the state `S` of the database.
pub record LedgerDatabase (S : Type 0) : Type 0 where
  pub find_by_reference : String → S → Option PostedTransaction
  pub upsert_account : String → S → S
  pub account_sum : String → S → ℤ
  pub create_transaction : String → String → S → ℕ × S
  pub create_entries : ℕ → List LedgerEntryInput → S → S
  pub finalize : ℕ → S → PostedTransaction × S

-- How a transaction of the database fails, where it is not the ledger's own error.
pub data DatabaseFailure : Type 0 where
  reference_conflict write_conflict other_failure : DatabaseFailure

module _ {S : Type 0} (db : LedgerDatabase S) (digest : List (String × ℤ) → String) where
  -- `hashEntries`: the digest of the entries in their normal form.
  abbrev pub hash_entries : List LedgerEntryInput → String
  hash_entries entries = digest (map (λ e. (e.account_id, e.amount)) (normalize_entries entries))

  unfoldable pub prepare_transaction : PostTransactionInput → Result LedgerError PreparedTransaction
  prepare_transaction input = do
    let entries = normalize_entries input.entries
    guard (is_zero (total_of entries)) unbalanced_transaction
    guard (leb 2 (length entries)) invalid_ledger_entries
    ok (record { entries = entries; payload_hash = hash_entries entries })

  unfoldable pub assert_matching_payload :
      PostedTransaction → String → Result LedgerError PostedTransaction
  assert_matching_payload transaction payload_hash = do
    guard (transaction.payload_hash === payload_hash) idempotency_conflict
    ok transaction

  unfoldable pub read_by_reference : String → String → S → Result LedgerError PostedTransaction
  unfolding assert_matching_payload
  read_by_reference reference payload_hash s = elim (db.find_by_reference reference s) [
    | none ↦ err idempotency_lookup_failed
    | some existing ↦ assert_matching_payload existing payload_hash
  ]

  -- An account for each entry; the entries of a prepared transaction name each account once.
  unfoldable pub upsert_accounts : List LedgerEntryInput → S → S
  upsert_accounts [] s = s
  upsert_accounts (e ∷ es) s = upsert_accounts es (db.upsert_account e.account_id s)

  -- The debit of the source account, if there is one, and its funds.
  unfoldable pub covers_debit : ℤ → Option LedgerEntryInput → Bool
  covers_debit funds none = false
  covers_debit funds (some e) = ltb_ℤ e.amount (pos 0) && not (ltb_ℤ funds (minus_ℤ e.amount))

  -- `if (sourceAccountId)`: the empty text counts as no source.
  unfoldable pub check_source :
      Option String → List LedgerEntryInput → S → Result LedgerError (Unit {0})
  unfolding covers_debit
  check_source none entries s = ok tt
  check_source (some source) entries s =
      guard
        (source === ""
          || covers_debit (db.account_sum source s) (find (λ e. e.account_id === source) entries))
        insufficient_funds

  -- The rows that a new transaction writes.
  unfoldable pub write_transaction : String → PreparedTransaction → S → S × PostedTransaction
  write_transaction reference prepared s =
      let (id, s1) = db.create_transaction reference prepared.payload_hash s in
      let (posted, s2) = db.finalize id (db.create_entries id prepared.entries s1) in (s2, posted)

  -- The rest of the body, once the reference was looked up.
  unfoldable pub post_unless_posted :
      Option PostedTransaction
      → PostTransactionInput
      → PreparedTransaction
      → Option String
      → S
      → Result LedgerError (S × PostedTransaction)
  unfolding assert_matching_payload upsert_accounts check_source write_transaction
  post_unless_posted (some existing) input prepared source s = do
    posted ← assert_matching_payload existing prepared.payload_hash
    ok (s, posted)
  post_unless_posted none input prepared source s = do
    let s1 = upsert_accounts prepared.entries s
    check_source source prepared.entries s1
    ok (write_transaction input.reference prepared s1)

  -- The body of the database transaction: the new state, and the transaction that it returns.
  unfoldable pub post_prepared_transaction :
      PostTransactionInput
      → PreparedTransaction
      → Option String
      → S
      → Result LedgerError (S × PostedTransaction)
  unfolding post_unless_posted
  post_prepared_transaction input prepared source s =
      post_unless_posted (db.find_by_reference input.reference s) input prepared source s

  unfoldable pub read_posted :
      PostTransactionInput → PreparedTransaction → S → Result LedgerError (S × PostedTransaction)
  unfolding read_by_reference
  read_posted input prepared s = do
    posted ← read_by_reference input.reference prepared.payload_hash s
    ok (s, posted)

  -- The `try` and the `catch` of an attempt: what was posted, what is read back, or another attempt.
  abbrev pub attempt_outcome :
      Option DatabaseFailure
      → Result LedgerError (S × PostedTransaction)
      → Result LedgerError (S × PostedTransaction)
      → Result LedgerError (S × PostedTransaction)
      → Result LedgerError (S × PostedTransaction)
  attempt_outcome none posted read again = posted
  attempt_outcome (some reference_conflict) posted read again = read
  attempt_outcome (some write_conflict) posted read again = again
  attempt_outcome (some other_failure) posted read again = err other_database_error

  -- The attempts that are left, of five. `failure` says how the database fails at an attempt, and
  -- `seen` what it holds then: other clients write between the attempts.
  unfoldable pub attempt_from :
      (ℕ → Option DatabaseFailure)
      → (ℕ → S)
      → PostTransactionInput
      → PreparedTransaction
      → Option String
      → ℕ
      → ℕ
      → Result LedgerError (S × PostedTransaction)
  unfolding post_prepared_transaction read_posted
  attempt_from failure seen input prepared source zero attempt = err retries_exhausted
  attempt_from failure seen input prepared source (suc left) attempt =
      attempt_outcome (failure attempt)
        (post_prepared_transaction input prepared source (seen attempt))
        (read_posted input prepared (seen attempt))
        (attempt_from failure seen input prepared source left (attempt + 1))

  unfoldable pub post_transaction_with_source :
      (ℕ → Option DatabaseFailure)
      → (ℕ → S)
      → PostTransactionInput
      → Option String
      → Result LedgerError (S × PostedTransaction)
  unfolding prepare_transaction attempt_from
  post_transaction_with_source failure seen input source = do
    prepared ← prepare_transaction input
    attempt_from failure seen input prepared source 5 1

  unfoldable pub post_transaction :
      (ℕ → Option DatabaseFailure)
      → (ℕ → S)
      → PostTransactionInput
      → Result LedgerError (S × PostedTransaction)
  unfolding post_transaction_with_source
  post_transaction failure seen input = post_transaction_with_source failure seen input none

  unfoldable pub post_transaction_in_database :
      PostTransactionInput → Option String → S → Result LedgerError (S × PostedTransaction)
  unfolding prepare_transaction post_prepared_transaction
  post_transaction_in_database input source s = do
    prepared ← prepare_transaction input
    post_prepared_transaction input prepared source s

  abbrev pub get_balance : String → S → ℤ
  get_balance account s = db.account_sum account s

  -- The two entries that move an amount from one account to another.
  abbrev pub transfer_of : String → String → String → ℤ → PostTransactionInput
  transfer_of reference from to amount = record {
    reference = reference;
    entries =
        record { account_id = from; amount = minus_ℤ amount }
        ∷ record { account_id = to; amount = amount }
        ∷ [];
  }

  unfoldable pub reserve_buy_in :
      (ℕ → Option DatabaseFailure)
      → (ℕ → S)
      → TransferInput
      → Result LedgerError (S × PostedTransaction)
  unfolding post_transaction_with_source
  reserve_buy_in failure seen input = do
    guard (ltb_ℤ (pos 0) input.amount) invalid_transfer_amount
    post_transaction_with_source failure seen
        (transfer_of input.reference input.player_account_id input.table_account_id input.amount)
        (some input.player_account_id)

  unfoldable pub settle_cash_out :
      (ℕ → Option DatabaseFailure)
      → (ℕ → S)
      → TransferInput
      → Result LedgerError (S × PostedTransaction)
  unfolding post_transaction_with_source
  settle_cash_out failure seen input = do
    guard (ltb_ℤ (pos 0) input.amount) invalid_transfer_amount
    post_transaction_with_source failure seen
        (transfer_of input.reference input.table_account_id input.player_account_id input.amount)
        (some input.table_account_id)
