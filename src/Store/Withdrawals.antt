-- ===== src/Store/Withdrawals.antt =====
-- packages/db/src/withdrawal.ts: reserving a withdrawal, and completing or releasing it.
pub mod Names
pub mod Backed
pub mod Sound
pub mod Reserve
pub mod Totals
pub mod Settle
pub mod Transition
pub mod Refines
pub mod Once
pub mod Runs
use porker_monorepo.Base.{
  Bool, Option, Result, String, [], decimal, false, if◌then◌else◌, none, ok, some, template, ℕ,
  ◌&&◌, ◌+◌, ◌-◌, ◌===◌, ◌==◌, ◌>>=◌, ◌>>◌, ◌∷◌,
}
use porker_monorepo.Ledger.{transfer_of}
use porker_monorepo.Ledger.Integers.{is_zero, ltb_ℤ, pos, ℤ, ◌-ℤ◌}
use porker_monorepo.Store.{
  Database, FailureCode, StoreError, attempts, is_retryable, post_in_database, require,
  rethrow_unless,
}

pub record WithdrawalDraft : Type 0 where
  pub chain_id : ℕ
  pub escrow_address : String
  pub wallet_address : String
  pub amount : ℤ
  pub nonce : ℕ
  pub deadline : ℕ

pub record ReserveWithdrawalInput : Type 0 where
  pub user_id : String
  pub wallet_address : String
  pub chain_id : ℕ
  pub escrow_address : String
  pub amount : ℤ
  pub deadline : ℕ
  pub idempotency_key : Option String

pub data Outcome : Type 0 where
  completed released : Outcome

-- The column `status`: a reserved withdrawal is settled by one of the two outcomes.
pub data WithdrawalStatus : Type 0 where
  reserved : WithdrawalStatus
  settled_with : Outcome → WithdrawalStatus

-- The rows of the tables Withdrawal and WalletWithdrawalNonce.
pub record Withdrawal : Type 0 where
  pub id : String
  pub user_id : String
  pub wallet_address : String
  pub chain_id : ℕ
  pub escrow_address : String
  pub amount : ℤ
  pub nonce : ℕ
  pub deadline : ℕ
  pub signature : String
  pub status : WithdrawalStatus
  pub idempotency_key : Option String
  pub reservation_transaction_id : ℕ
  pub settlement_transaction_id : Option ℕ
  pub chain_transaction_hash : Option String
  pub completed_at : Option ℕ

pub record WalletWithdrawalNonce : Type 0 where
  pub chain_id : ℕ
  pub escrow_address : String
  pub wallet_address : String
  pub next_nonce : ℕ

-- What the database holds of withdrawals.
pub record WithdrawalTables (L : Type 0) (T : Type 0 → Type 0) : Type 0 where
  pub ledger : L
  pub nonces : T WalletWithdrawalNonce
  pub withdrawals : T Withdrawal

abbrev pub escrow_account : String → String
escrow_account wallet = template ("escrow:" ∷ wallet ∷ [])

abbrev pub reserved_account : String → String
reserved_account wallet = template ("withdrawal-reserved:" ∷ wallet ∷ [])

abbrev pub treasury_account : ℕ → String → String
treasury_account chain escrow = template ("treasury:" ∷ decimal chain ∷ ":" ∷ escrow ∷ [])

abbrev pub is_same_id : String → Withdrawal → Bool
is_same_id id w = w.id === id

-- `userId_idempotencyKey: { userId, idempotencyKey }`.
abbrev pub has_key : String → String → Withdrawal → Bool
has_key user key w =
    w.user_id === user && elim w.idempotency_key [ none ↦ false | some k ↦ k === key ]

abbrev pub is_nonce_of : ReserveWithdrawalInput → WalletWithdrawalNonce → Bool
is_nonce_of input row =
    row.chain_id == input.chain_id
    && row.escrow_address === input.escrow_address
    && row.wallet_address === input.wallet_address

abbrev pub first_nonce : ReserveWithdrawalInput → WalletWithdrawalNonce
first_nonce input = record {
  chain_id = input.chain_id;
  escrow_address = input.escrow_address;
  wallet_address = input.wallet_address;
  next_nonce = 1;
}

abbrev pub increment : WalletWithdrawalNonce → WalletWithdrawalNonce
increment row = record row { next_nonce = row.next_nonce + 1 }

-- `{ ...input, nonce }`.
abbrev pub draft_of : ReserveWithdrawalInput → ℕ → WithdrawalDraft
draft_of input nonce = record {
  chain_id = input.chain_id;
  escrow_address = input.escrow_address;
  wallet_address = input.wallet_address;
  amount = input.amount;
  nonce = nonce;
  deadline = input.deadline;
}

abbrev pub same_amount : ℤ → ℤ → Bool
same_amount a b = is_zero (a -ℤ b)

abbrev pub matches_input : ReserveWithdrawalInput → Withdrawal → Bool
matches_input input w =
    same_amount w.amount input.amount
    && w.chain_id == input.chain_id
    && w.escrow_address === input.escrow_address

abbrev pub reserved_row : ReserveWithdrawalInput → String → ℕ → String → ℕ → Withdrawal
reserved_row input id nonce signature reservation = record {
  id = id;
  user_id = input.user_id;
  wallet_address = input.wallet_address;
  chain_id = input.chain_id;
  escrow_address = input.escrow_address;
  amount = input.amount;
  nonce = nonce;
  deadline = input.deadline;
  signature = signature;
  status = reserved;
  idempotency_key = input.idempotency_key;
  reservation_transaction_id = reservation;
  settlement_transaction_id = none;
  chain_transaction_hash = none;
  completed_at = none;
}

abbrev pub outcome_word : Outcome → String
outcome_word completed = "completed"
outcome_word released = "released"

-- The account that the reserved amount goes to.
abbrev pub settled_account : Outcome → Withdrawal → String
settled_account completed w = treasury_account w.chain_id w.escrow_address
settled_account released w = escrow_account w.wallet_address

abbrev pub reserve_reference : String → String
reserve_reference id = template ("withdrawal-reserve:" ∷ id ∷ [])

abbrev pub outcome_reference : Outcome → String → String
outcome_reference outcome id = template ("withdrawal-" ∷ outcome_word outcome ∷ ":" ∷ id ∷ [])

-- A field that is undefined in `data` is not written.
abbrev pub or_kept {ℓ} : {A : Type ℓ} → Option A → Option A → Option A
or_kept none old = old
or_kept (some new) old = some new

abbrev pub settled_row : Outcome → Option String → ℕ → ℕ → Withdrawal → Withdrawal
settled_row outcome hash settlement now w = record w {
  status = settled_with outcome;
  settlement_transaction_id = some settlement;
  chain_transaction_hash = or_kept hash w.chain_transaction_hash;
  completed_at = some now;
}

module _ {L : Type 0} {T : Type 0 → Type 0} (d : Database L T) where
  -- `if (input.idempotencyKey)`: the empty key counts as none.
  abbrev pub existing_for : Option String → String → T Withdrawal → Option Withdrawal
  existing_for none user rows = none
  existing_for (some key) user rows =
      if key === "" then none else d.tables.find_first (has_key user key) rows

  -- The rest of the transaction, once the key was looked up. The identifier is random, and `sign` may
  -- throw.
  unfoldable pub reserve_unless_found :
      Option Withdrawal
      → ReserveWithdrawalInput
      → (WithdrawalDraft → Result StoreError String)
      → String
      → WithdrawalTables L T
      → Result StoreError (WithdrawalTables L T × Withdrawal)
  reserve_unless_found (some existing) input sign id s = do
    require (matches_input input existing) "IDEMPOTENCY_CONFLICT"
    ok (s, existing)
  reserve_unless_found none input sign id s = do
    let upserted = d.tables.upsert (is_nonce_of input) (first_nonce input) increment s.nonces
    let nonce = (upserted.0).next_nonce - 1
    reservation ←
        post_in_database d
          (transfer_of d.ledger d.digest (reserve_reference id)
            (escrow_account input.wallet_address) (reserved_account input.wallet_address)
            input.amount)
          (some (escrow_account input.wallet_address)) s.ledger
    signature ← sign (draft_of input nonce)
    let row = reserved_row input id nonce signature (reservation.1).id
    ok (
      record {
        ledger = reservation.0;
        nonces = upserted.1;
        withdrawals = d.tables.create row s.withdrawals;
      },
      row,
    )

  unfoldable pub reserve_in_database :
      ReserveWithdrawalInput
      → (WithdrawalDraft → Result StoreError String)
      → String
      → WithdrawalTables L T
      → Result StoreError (WithdrawalTables L T × Withdrawal)
  unfolding reserve_unless_found
  reserve_in_database input sign id s =
      reserve_unless_found (existing_for input.idempotency_key input.user_id s.withdrawals) input
        sign id s

  -- Five attempts; `seen` is what the database holds at an attempt, and `new_id` its random id.
  unfoldable pub reserve_withdrawal :
      (ℕ → Option FailureCode)
      → (ℕ → WithdrawalTables L T)
      → (ℕ → String)
      → ReserveWithdrawalInput
      → (WithdrawalDraft → Result StoreError String)
      → Result StoreError (WithdrawalTables L T × Withdrawal)
  unfolding reserve_in_database
  reserve_withdrawal failure seen new_id input sign = do
    require (ltb_ℤ (pos 0) input.amount) "INVALID_WITHDRAWAL_AMOUNT"
    attempts "WITHDRAWAL_RETRIES_EXHAUSTED" failure
        (λ attempt. reserve_in_database input sign (new_id attempt) (seen attempt))
        (λ attempt left code. rethrow_unless (is_retryable code) left code) 5 1

  unfoldable pub find_withdrawal_for_user :
      String → String → WithdrawalTables L T → Option Withdrawal
  find_withdrawal_for_user id user s =
      d.tables.find_first (λ w. w.id === id && w.user_id === user) s.withdrawals

  -- `if (!current || current.status !== "RESERVED") return current`, and the rest.
  unfoldable pub settle_reserved :
      WithdrawalStatus
      → String
      → Withdrawal
      → Outcome
      → Option String
      → ℕ
      → WithdrawalTables L T
      → Result StoreError (WithdrawalTables L T × Option Withdrawal)
  settle_reserved (settled_with before) id current outcome hash now s = ok (s, some current)
  settle_reserved reserved id current outcome hash now s = do
    settlement ←
        post_in_database d
          (transfer_of d.ledger d.digest (outcome_reference outcome id)
            (reserved_account current.wallet_address) (settled_account outcome current)
            current.amount)
          (some (reserved_account current.wallet_address)) s.ledger
    let change = settled_row outcome hash (settlement.1).id now
    ok (
      record s {
        ledger = settlement.0;
        withdrawals = d.tables.update (is_same_id id) change s.withdrawals;
      },
      some (change current),
    )

  unfoldable pub settle_if_found :
      Option Withdrawal
      → String
      → Outcome
      → Option String
      → ℕ
      → WithdrawalTables L T
      → Result StoreError (WithdrawalTables L T × Option Withdrawal)
  unfolding settle_reserved
  settle_if_found none id outcome hash now s = ok (s, none)
  settle_if_found (some current) id outcome hash now s =
      settle_reserved current.status id current outcome hash now s

  unfoldable pub transition_in_database :
      String
      → Outcome
      → Option String
      → ℕ
      → WithdrawalTables L T
      → Result StoreError (WithdrawalTables L T × Option Withdrawal)
  unfolding settle_if_found
  transition_in_database id outcome hash now s =
      settle_if_found (d.tables.find_first (is_same_id id) s.withdrawals) id outcome hash now s

  unfoldable pub transition_withdrawal :
      (ℕ → Option FailureCode)
      → (ℕ → WithdrawalTables L T)
      → (ℕ → ℕ)
      → String
      → Outcome
      → Option String
      → Result StoreError (WithdrawalTables L T × Option Withdrawal)
  unfolding transition_in_database
  transition_withdrawal failure seen now id outcome hash =
      attempts "WITHDRAWAL_RETRIES_EXHAUSTED" failure
        (λ attempt. transition_in_database id outcome hash (now attempt) (seen attempt))
        (λ attempt left code. rethrow_unless (is_retryable code) left code) 5 1
