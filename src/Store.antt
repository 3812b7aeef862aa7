-- ===== src/Store.antt =====
-- packages/db/src: what the transactions on the database share. Prisma and PostgreSQL are an
-- interface; a transaction either commits a new state, or fails and leaves the old one.
pub mod Rows
pub mod Attempts
pub mod Withdrawals
pub mod Game
pub mod Samples
mod Witnesses
mod GameWitnesses
use porker_monorepo.Base.{
  Bool, List, Option, Result, String, err, false, guard, if◌then◌else◌, ltb, none, ok, some, suc,
  true, zero, ℕ, ◌&&◌, ◌+◌,
}
use porker_monorepo.Ledger.{
  LedgerDatabase, LedgerError, PostTransactionInput, PostedTransaction, idempotency_conflict,
  idempotency_lookup_failed, insufficient_funds, invalid_ledger_entries, invalid_transfer_amount,
  other_database_error, post_transaction_in_database, retries_exhausted, unbalanced_transaction,
}
use porker_monorepo.Ledger.Integers.{ℤ}

-- The operations of the client on a table `T R` of rows `R`. A `where` clause is a test on rows; a
-- query by a unique key and `findFirst` are `find_first`, the two updates are `update`. `upsert`
-- returns the row that it created or updated.
pub record Tables (T : Type 0 → Type 0) : Type 1 where
  pub find_first : {R : Type 0} → (R → Bool) → T R → Option R
  pub find_many : {R : Type 0} → (R → Bool) → T R → List R
  pub create : {R : Type 0} → R → T R → T R
  pub update : {R : Type 0} → (R → Bool) → (R → R) → T R → T R
  pub upsert : {R : Type 0} → (R → Bool) → R → (R → R) → T R → R × T R
  pub delete : {R : Type 0} → (R → Bool) → T R → T R

-- The database: the ledger with its digest, and the other tables.
pub record Database (L : Type 0) (T : Type 0 → Type 0) : Type 1 where
  pub ledger : LedgerDatabase L
  pub digest : List (String × ℤ) → String
  pub tables : Tables T

-- How a transaction of the database fails: on a unique key (P2002), on a write conflict (P2034), or
-- otherwise.
pub data FailureCode : Type 0 where
  p2002 p2034 other_code : FailureCode

-- `new Error(message)`, and the errors of the client.
pub data StoreError : Type 0 where
  thrown : String → StoreError
  database_error : FailureCode → StoreError

-- The messages of ledger.ts.
abbrev pub ledger_error : LedgerError → StoreError
ledger_error unbalanced_transaction = thrown "UNBALANCED_TRANSACTION"
ledger_error invalid_ledger_entries = thrown "INVALID_LEDGER_ENTRIES"
ledger_error idempotency_conflict = thrown "IDEMPOTENCY_CONFLICT"
ledger_error idempotency_lookup_failed = thrown "IDEMPOTENCY_LOOKUP_FAILED"
ledger_error insufficient_funds = thrown "INSUFFICIENT_FUNDS"
ledger_error retries_exhausted = thrown "SERIALIZABLE_TRANSACTION_RETRIES_EXHAUSTED"
ledger_error invalid_transfer_amount = thrown "INVALID_TRANSFER_AMOUNT"
ledger_error other_database_error = database_error other_code

abbrev pub or_ledger_error {ℓ} : {A : Type ℓ} → Result LedgerError A → Result StoreError A
or_ledger_error (ok a) = ok a
or_ledger_error (err e) = err (ledger_error e)

-- `if (!test) throw new Error(message)`.
abbrev pub require : Bool → String → Result StoreError (Unit {0})
require test message = guard test (thrown message)

-- What the `catch` of an attempt does: another attempt, or an answer or error of its own.
pub data Caught (A : Type 0) : Type 0 where
  try_again : Caught A
  answer : Result StoreError A → Caught A

abbrev pub after_catch : {A : Type 0} → Caught A → Result StoreError A → Result StoreError A
after_catch try_again again = again
after_catch (answer result) again = result

-- An attempt: the result of the transaction, or what the `catch` makes of its failure.
abbrev pub attempt_result :
    {A : Type 0}
    → Option FailureCode
    → Result StoreError A
    → (FailureCode → Caught A)
    → Result StoreError A
    → Result StoreError A
attempt_result none result catch_error again = result
attempt_result (some code) result catch_error again = after_catch (catch_error code) again

-- The loop of the attempts. `failure` says how the database fails at an attempt; `body` is the
-- transaction on what the database holds then, and `catch_error` knows the attempt and how many are
-- left after it.
unfoldable pub attempts :
    {A : Type 0}
    → String
    → (ℕ → Option FailureCode)
    → (ℕ → Result StoreError A)
    → (ℕ → ℕ → FailureCode → Caught A)
    → ℕ
    → ℕ
    → Result StoreError A
attempts exhausted failure body catch_error zero attempt = err (thrown exhausted)
attempts exhausted failure body catch_error (suc left) attempt =
    attempt_result (failure attempt) (body attempt) (catch_error attempt left)
      (attempts exhausted failure body catch_error left (attempt + 1))

-- `if (!retryable(error) || attempt === MAX_ATTEMPTS) throw error`.
abbrev pub rethrow_unless : {A : Type 0} → Bool → ℕ → FailureCode → Caught A
rethrow_unless retryable left code =
    if retryable && ltb 0 left then try_again else answer (err (database_error code))

abbrev pub is_p2034 : FailureCode → Bool
is_p2034 p2002 = false
is_p2034 p2034 = true
is_p2034 other_code = false

-- `retryable` of withdrawal.ts and chain.ts.
abbrev pub is_retryable : FailureCode → Bool
is_retryable p2002 = true
is_retryable p2034 = true
is_retryable other_code = false

module _ {L : Type 0} {T : Type 0 → Type 0} (d : Database L T) where
  -- `postTransactionInDatabase`, with its errors passed on.
  abbrev pub post_in_database :
      PostTransactionInput → Option String → L → Result StoreError (L × PostedTransaction)
  post_in_database input source s =
      or_ledger_error (post_transaction_in_database d.ledger d.digest input source s)
