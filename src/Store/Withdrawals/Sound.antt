-- ===== src/Store/Withdrawals/Sound.antt =====
-- packages/db/src/withdrawal.ts: the invariant of the withdrawals and the ledger.
use porker_monorepo.Base.{
  ===_ne, >>=-eq-ok, All, List, Result, String, [], arith, count_by, false, find, none, ok,
  ok-injective, refl, some, true, ℕ, ◌++◌, ◌+◌, ◌-◌, ◌===◌, ◌∷◌, ◌≡◌, ◌≤◌,
}
use porker_monorepo.Ledger.{PostTransactionInput, PostedTransaction, transfer_of}
use porker_monorepo.Ledger.Integers.{int_laws, ltb_ℤ, pos, ℤ, ◌+ℤ◌}
use porker_monorepo.Ledger.Totals.{part}
use porker_monorepo.Ledger.Transfers.{moved}
use porker_monorepo.Store.{Database, StoreError, post_in_database}
use porker_monorepo.Store.Rows.{StoreLaws}
use porker_monorepo.Store.Withdrawals.{
  Outcome, ReserveWithdrawalInput, WalletWithdrawalNonce, Withdrawal, WithdrawalDraft,
  WithdrawalTables, draft_of, escrow_account, first_nonce, increment, is_nonce_of, is_same_id,
  outcome_reference, reserve_reference, reserve_unless_found, reserved, reserved_account,
  reserved_row,
}
use porker_monorepo.Store.Withdrawals.Backed.{reserved_total}
use porker_monorepo.Store.Withdrawals.Names.{escrow-ne-reserved, reserved-same}

pub record IsBacked {L : Type 0} {T : Type 0 → Type 0} (d : Database L T) (laws : StoreLaws d)
    (s : WithdrawalTables L T) : Type 0 where
  -- What is reserved for a wallet stands on its account.
  pub backed :
      (wallet : String)
      → d.ledger.account_sum (reserved_account wallet) s.ledger
        ≡ reserved_total wallet (laws.tables.rows s.withdrawals)
  pub unique : (id : String) → count_by (is_same_id id) (laws.tables.rows s.withdrawals) ≤ 1
  pub positive : All (λ w. ltb_ℤ (pos 0) w.amount ≡ true) (laws.tables.rows s.withdrawals)
  -- A reserved withdrawal is not settled yet.
  pub unsettled :
      (id : String) (o : Outcome) {w : Withdrawal}
      → find (is_same_id id) (laws.tables.rows s.withdrawals) ≡ some w
      → w.status ≡ reserved
      → d.ledger.find_by_reference (outcome_reference o id) s.ledger ≡ none

-- A random identifier that nothing in the database has.
pub record IsNew {L : Type 0} {T : Type 0 → Type 0} (d : Database L T) (laws : StoreLaws d)
    (id : String) (s : WithdrawalTables L T) : Type 0 where
  pub no_row : find (is_same_id id) (laws.tables.rows s.withdrawals) ≡ none
  pub not_reserved : d.ledger.find_by_reference (reserve_reference id) s.ledger ≡ none
  pub not_settled :
      (o : Outcome) → d.ledger.find_by_reference (outcome_reference o id) s.ledger ≡ none

pub count-create :
    (id : String) (ws : List Withdrawal) (w : Withdrawal)
    → count_by (is_same_id id) (ws ++ w ∷ [])
      ≡ count_by (is_same_id id) ws + count_by (is_same_id id) (w ∷ [])
count-create id [] w = omega arith
count-create id (v ∷ ws) w = ground (arith, count-create id ws w)

pub find-none-count :
    (id : String) (ws : List Withdrawal)
    → find (is_same_id id) ws ≡ none
    → count_by (is_same_id id) ws ≡ 0
find-none-count id [] h = refl
find-none-count id (v ∷ ws) h = ground (arith, find-none-count id ws)

module _ {L : Type 0} {T : Type 0 → Type 0} (d : Database L T) (laws : StoreLaws d) where
  abbrev pub withdrawal_rows : T Withdrawal → List Withdrawal
  withdrawal_rows t = laws.tables.rows t

  -- What a new reservation writes.
  abbrev pub bumped :
      ReserveWithdrawalInput
      → WithdrawalTables L T
      → WalletWithdrawalNonce × T WalletWithdrawalNonce
  bumped input s = d.tables.upsert (is_nonce_of input) (first_nonce input) increment s.nonces

  abbrev pub new_row :
      ReserveWithdrawalInput → String → String → ℕ → WithdrawalTables L T → Withdrawal
  new_row input id signature reservation s =
      reserved_row input id (((bumped input s).0).next_nonce - 1) signature reservation

  abbrev pub reservation_of : ReserveWithdrawalInput → String → PostTransactionInput
  reservation_of input id =
      transfer_of d.ledger d.digest (reserve_reference id) (escrow_account input.wallet_address)
        (reserved_account input.wallet_address) input.amount

  abbrev pub after_reservation :
      ReserveWithdrawalInput
      → String
      → L × PostedTransaction
      → String
      → WithdrawalTables L T
      → WithdrawalTables L T × Withdrawal
  after_reservation input id posted signature s =
      let row = new_row input id signature (posted.1).id s in
      (
        record {
          ledger = posted.0;
          nonces = (bumped input s).1;
          withdrawals = d.tables.create row s.withdrawals;
        },
        row,
      )

  pub reserve_unless_found-parts :
      (input : ReserveWithdrawalInput) (sign : WithdrawalDraft → Result StoreError String)
      (id : String) (s : WithdrawalTables L T) {r : WithdrawalTables L T × Withdrawal}
      → reserve_unless_found d none input sign id s ≡ ok r
      → (posted : L × PostedTransaction) × (signature : String) × (post_in_database d
            (reservation_of input id)
            (some (escrow_account input.wallet_address))
            s.ledger
          ≡ ok posted)
        × (after_reservation input id posted signature s ≡ r)
  unfolding reserve_unless_found
  reserve_unless_found-parts input sign id s {r} h =
      let (posted, p, h1) =
        >>=-eq-ok
          (post_in_database d (reservation_of input id) (some (escrow_account input.wallet_address))
            s.ledger)
          _ h in
      let (signature, _, h2) =
        >>=-eq-ok (sign (draft_of input (((bumped input s).0).next_nonce - 1))) _ h1 in
      (posted, signature, p, ok-injective h2)

  pub moved-reserve :
      (v wallet : String) (amount : ℤ)
      → moved (escrow_account v) (reserved_account v) amount (reserved_account wallet)
        ≡ part (v === wallet) amount
  moved-reserve v wallet amount =
      let away : (escrow_account v === reserved_account wallet) ≡ false =
        ===_ne (escrow_account v) (reserved_account wallet) (escrow-ne-reserved v wallet) in
      let zero_plus : (a : ℤ) → pos 0 +ℤ a ≡ a = λ a. omega int_laws in
      rw (away, reserved-same v wallet) (zero_plus (part (v === wallet) amount))
