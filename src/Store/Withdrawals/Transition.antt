-- ===== src/Store/Withdrawals/Transition.antt =====
-- packages/db/src/withdrawal.ts: `transitionWithdrawal`, and sequences of the two operations.
use porker_monorepo.Base.{
  >>=-eq-ok, All-find, Option, String, ap, err, false, find, find_passes, if◌then◌else◌, none, ok,
  ok-injective, refl, some, subst, suc, sym, true, ℕ, ◌>>=◌, ◌∙◌, ◌≡◌,
}
use porker_monorepo.Ledger.{PostedTransaction, insufficient_funds, transfer_of}
use porker_monorepo.Ledger.Integers.{ltb_ℤ, pos}
use porker_monorepo.Ledger.Transfers.{post_transaction_in_database-transfer, transferred}
use porker_monorepo.Store.{Database, or_ledger_error, post_in_database}
use porker_monorepo.Store.Rows.{StoreLaws, find-updated}
use porker_monorepo.Store.Withdrawals.{
  Outcome, Withdrawal, WithdrawalStatus, WithdrawalTables, is_same_id, outcome_reference, reserved,
  reserved_account, settle_if_found, settle_reserved, settled_account, settled_row, settled_with,
  transition_in_database,
}
use porker_monorepo.Store.Withdrawals.Backed.{reserved_total}
use porker_monorepo.Store.Withdrawals.Names.{reserved_named, settled-ne-reserved}
use porker_monorepo.Store.Withdrawals.Settle.{
  after_settlement, after_settlement-IsBacked, settlement_of,
}
use porker_monorepo.Store.Withdrawals.Sound.{IsBacked, withdrawal_rows}
use porker_monorepo.Store.Withdrawals.Totals.{amount-le-total, not-ltb, positive-suc}

module _ {L : Type 0} {T : Type 0 → Type 0} (d : Database L T) (laws : StoreLaws d) where
  pub settle_reserved-parts :
      (id : String) (w : Withdrawal) (o : Outcome) (hash : Option String) (now : ℕ)
      (s : WithdrawalTables L T) {r : WithdrawalTables L T × Option Withdrawal}
      → settle_reserved d reserved id w o hash now s ≡ ok r
      → (posted : L × PostedTransaction) × (post_in_database d
            (settlement_of d laws id o w)
            (some (reserved_account w.wallet_address))
            s.ledger
          ≡ ok posted)
        × ((
          after_settlement d laws id o hash now posted s,
          some (settled_row o hash (posted.1).id now w),
        )
            ≡ r)
  unfolding settle_reserved
  settle_reserved-parts id w o hash now s {r} h =
      let (posted, p, h1) =
        >>=-eq-ok
          (post_in_database d (settlement_of d laws id o w)
            (some (reserved_account w.wallet_address)) s.ledger)
          _ h in
      (posted, p, ok-injective h1)

  settle_reserved-IsBacked :
      (status : WithdrawalStatus) (id : String) (w : Withdrawal) (o : Outcome)
      (hash : Option String) (now : ℕ) (s : WithdrawalTables L T)
      {r : WithdrawalTables L T × Option Withdrawal}
      → find (is_same_id id) (withdrawal_rows d laws s.withdrawals) ≡ some w
      → w.status ≡ status
      → settle_reserved d status id w o hash now s ≡ ok r
      → IsBacked d laws s
      → IsBacked d laws (r.0)
  unfolding settle_reserved
  settle_reserved-IsBacked (settled_with before) id w o hash now s {r} found at h k =
      subst (λ (x : WithdrawalTables L T × Option Withdrawal). IsBacked d laws (x.0))
        (ok-injective h) k
  settle_reserved-IsBacked reserved id w o hash now s {r} found at h k =
      let (posted, p, same) = settle_reserved-parts id w o hash now s {r = r} h in
      subst (λ (x : WithdrawalTables L T × Option Withdrawal). IsBacked d laws (x.0)) same
        (after_settlement-IsBacked d laws id o hash now s {w = w} posted found at p k)

  settle_if_found-IsBacked :
      (current : Option Withdrawal) (id : String) (o : Outcome) (hash : Option String) (now : ℕ)
      (s : WithdrawalTables L T) {r : WithdrawalTables L T × Option Withdrawal}
      → find (is_same_id id) (withdrawal_rows d laws s.withdrawals) ≡ current
      → settle_if_found d current id o hash now s ≡ ok r
      → IsBacked d laws s
      → IsBacked d laws (r.0)
  unfolding settle_if_found
  settle_if_found-IsBacked none id o hash now s {r} found h k =
      subst (λ (x : WithdrawalTables L T × Option Withdrawal). IsBacked d laws (x.0))
        (ok-injective h) k
  settle_if_found-IsBacked (some w) id o hash now s {r} found h k =
      settle_reserved-IsBacked w.status id w o hash now s {r = r} found refl h k

  -- What a settlement that goes through leaves behind.
  pub transition_in_database-IsBacked :
      (id : String) (o : Outcome) (hash : Option String) (now : ℕ) (s : WithdrawalTables L T)
      {r : WithdrawalTables L T × Option Withdrawal}
      → transition_in_database d id o hash now s ≡ ok r
      → IsBacked d laws s
      → IsBacked d laws (r.0)
  unfolding transition_in_database
  transition_in_database-IsBacked id o hash now s {r} h k =
      settle_if_found-IsBacked (d.tables.find_first (is_same_id id) s.withdrawals) id o hash now s
        {r = r} (sym (laws.tables.find_rows (is_same_id id) s.withdrawals)) h k

  transfer_posts :
      (s : WithdrawalTables L T) (id : String) (o : Outcome) {w : Withdrawal}
      → find (is_same_id id) (withdrawal_rows d laws s.withdrawals) ≡ some w
      → w.status ≡ reserved
      → IsBacked d laws s
      → (posted : L × PostedTransaction) × (post_in_database d
            (settlement_of d laws id o w)
            (some (reserved_account w.wallet_address))
            s.ledger
          ≡ ok posted)
  transfer_posts s id o {w} found at k =
      let rows = withdrawal_rows d laws s.withdrawals in
      let from = reserved_account w.wallet_address in
      let to = settled_account o w in
      let (n, amount) =
        positive-suc w.amount
          (All-find (λ v. ltb_ℤ (pos 0) v.amount ≡ true) (is_same_id id) rows k.positive found) in
      let enough : ltb_ℤ (d.ledger.account_sum from s.ledger) (pos (suc n)) ≡ false =
        subst (λ a. ltb_ℤ (d.ledger.account_sum from s.ledger) a ≡ false) amount
          (subst (λ a. ltb_ℤ a w.amount ≡ false) (sym (k.backed w.wallet_address))
            (not-ltb w.amount (reserved_total w.wallet_address rows)
              (amount-le-total id rows {w = w} k.positive found at))) in
      let done = transferred d.ledger d.digest (outcome_reference o id) from to n s.ledger in
      (
        done,
        ap
              (λ a.
                post_in_database d
                  (transfer_of d.ledger d.digest (outcome_reference o id) from to a) (some from)
                  s.ledger)
              amount
            ∙ ap or_ledger_error (
                post_transaction_in_database-transfer d.ledger d.digest laws.ledger
                  (outcome_reference o id) from to n s.ledger
                  (λ e. settled-ne-reserved o w w.wallet_address (sym e))
                  (reserved_named w.wallet_address) (k.unsettled id o {w = w} found at)
                ∙ ap (λ b. if b then err insufficient_funds else ok done) enough),
      )

  -- A reserved withdrawal can be completed and can be released: the transition returns the row with
  -- the outcome as its status, and the invariant holds again.
  pub transition_in_database-settles :
      (id : String) (o : Outcome) (hash : Option String) (now : ℕ) (s : WithdrawalTables L T)
      {w : Withdrawal}
      → find (is_same_id id) (laws.tables.rows s.withdrawals) ≡ some w
      → w.status ≡ reserved
      → IsBacked d laws s
      → (r : WithdrawalTables L T) × (v : Withdrawal) × (transition_in_database d id o hash now s
          ≡ ok (r, some v))
        × (find (is_same_id id) (laws.tables.rows r.withdrawals) ≡ some v)
        × (v.status ≡ settled_with o)
        × IsBacked d laws r
  unfolding transition_in_database settle_if_found settle_reserved
  transition_in_database-settles id o hash now s {w} found at k =
      let (posted, p) = transfer_posts s id o {w = w} found at k in
      let f = settled_row o hash (posted.1).id now in
      let after = after_settlement d laws id o hash now posted s in
      let rows = withdrawal_rows d laws s.withdrawals in
      let own : is_same_id id w ≡ true = find_passes (is_same_id id) rows found in
      (
        after,
        f w,
        ap (λ c. settle_if_found d c id o hash now s)
              (laws.tables.find_rows (is_same_id id) s.withdrawals ∙ found)
            ∙ ap (λ st. settle_reserved d st id w o hash now s) at
            ∙ ap
                (λ m. m >>= λ settlement. ok (
                  after_settlement d laws id o hash now settlement s,
                  some (settled_row o hash (settlement.1).id now w),
                ))
                p,
        ap (find (is_same_id id)) (laws.tables.update_rows (is_same_id id) f s.withdrawals)
            ∙ find-updated (is_same_id id) (is_same_id id) f rows {x = w} (λ r. refl) found
            ∙ ap (λ b. some (if b then f w else w)) own,
        refl,
        after_settlement-IsBacked d laws id o hash now s {w = w} posted found at p k,
      )
