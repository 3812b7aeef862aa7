-- ===== src/Store/Withdrawals/Reserve.antt =====
-- packages/db/src/withdrawal.ts: what a reservation does.
use porker_monorepo.Base.{
  ===_iff, ===_refl, >>=-eq-ok, All, All-append, Bool-cases, List, Option, Option-cases, Result,
  String, [], all, ap, arith, count_by, find, find_passes, if◌then◌else◌, inl, inr, none, ok,
  ok-injective, refl, some, subst, sym, true, ℕ, ◌++◌, ◌+◌, ◌-◌, ◌===◌, ◌∙◌, ◌∷◌, ◌≡◌, ◌≤◌,
}
use porker_monorepo.Ledger.{PostedTransaction}
use porker_monorepo.Ledger.Integers.{ltb_ℤ, pos, ◌+ℤ◌}
use porker_monorepo.Ledger.Transfers.{moved}
use porker_monorepo.Store.{Database, StoreError, post_in_database, require}
use porker_monorepo.Store.Rows.{
  StoreLaws, find-create_other, find-create_self, find-updated, post_in_database-moved,
  post_in_database-unused, updated,
}
use porker_monorepo.Store.Withdrawals.{
  Outcome, ReserveWithdrawalInput, WalletWithdrawalNonce, Withdrawal, WithdrawalDraft,
  WithdrawalTables, escrow_account, existing_for, first_nonce, increment, is_nonce_of, is_same_id,
  matches_input, outcome_reference, reserve_in_database, reserve_reference, reserve_unless_found,
  reserved, reserved_account,
}
use porker_monorepo.Store.Withdrawals.Backed.{reserved_total, reserved_total-create}
use porker_monorepo.Store.Withdrawals.Names.{outcome-ne-reserve}
use porker_monorepo.Store.Withdrawals.Sound.{
  IsBacked, IsNew, after_reservation, bumped, count-create, find-none-count, moved-reserve, new_row,
  reservation_of, reserve_unless_found-parts, withdrawal_rows,
}

count-new :
    (id j : String) (ws : List Withdrawal) (w : Withdrawal)
    → w.id ≡ id
    → find (is_same_id id) ws ≡ none
    → count_by (is_same_id j) ws ≤ 1
    → count_by (is_same_id j) (ws ++ w ∷ []) ≤ 1
count-new id j ws w own none_yet once = elim (Bool-cases (is_same_id j w)) [
  | inl e ↦
      let same : id ≡ j = sym own ∙ (===_iff w.id j).0 e in
      let zero : count_by (is_same_id j) ws ≡ 0 =
        subst (λ k. count_by (is_same_id k) ws ≡ 0) same (find-none-count id ws none_yet) in
      ground (arith, count-create j ws w, e, zero)
  | inr e ↦ ground (arith, count-create j ws w, e, once)
]

module _ {L : Type 0} {T : Type 0 → Type 0} (d : Database L T) (laws : StoreLaws d) where
  reserve-backed :
      (input : ReserveWithdrawalInput) (id signature : String) (s : WithdrawalTables L T)
      (posted : L × PostedTransaction)
      → IsNew d laws id s
      → post_in_database d
          (reservation_of d laws input id)
          (some (escrow_account input.wallet_address))
          s.ledger
        ≡ ok posted
      → IsBacked d laws s
      → (wallet : String)
      → d.ledger.account_sum (reserved_account wallet) (posted.0)
        ≡ reserved_total wallet (
            withdrawal_rows d laws s.withdrawals
            ++ new_row d laws input id signature (posted.1).id s ∷ [])
  reserve-backed input id signature s posted new p k wallet =
      let rows = withdrawal_rows d laws s.withdrawals in
      post_in_database-moved d laws (reserve_reference id) (escrow_account input.wallet_address)
        (reserved_account input.wallet_address) input.amount
        (some (escrow_account input.wallet_address)) s.ledger {r = posted} new.not_reserved p
        (reserved_account wallet)
      ∙ ap
          (λ x.
            x
            +ℤ moved (escrow_account input.wallet_address) (reserved_account input.wallet_address)
                input.amount (reserved_account wallet))
          (k.backed wallet)
      ∙ ap (λ x. reserved_total wallet rows +ℤ x)
          (moved-reserve d laws input.wallet_address wallet input.amount)
      ∙ sym (
          reserved_total-create wallet rows (new_row d laws input id signature (posted.1).id s)
            refl)

  reserve-unsettled :
      (input : ReserveWithdrawalInput) (id signature : String) (s : WithdrawalTables L T)
      (posted : L × PostedTransaction)
      → IsNew d laws id s
      → post_in_database d
          (reservation_of d laws input id)
          (some (escrow_account input.wallet_address))
          s.ledger
        ≡ ok posted
      → IsBacked d laws s
      → (j : String) (o : Outcome) {w : Withdrawal}
      → find (is_same_id j) (
          withdrawal_rows d laws s.withdrawals
          ++ new_row d laws input id signature (posted.1).id s ∷ [])
        ≡ some w
      → w.status ≡ reserved
      → d.ledger.find_by_reference (outcome_reference o j) (posted.0) ≡ none
  reserve-unsettled input id signature s posted new p k j o {w} there open_yet =
      let rows = withdrawal_rows d laws s.withdrawals in
      let row = new_row d laws input id signature (posted.1).id s in
      let before : d.ledger.find_by_reference (outcome_reference o j) s.ledger ≡ none =
        elim (Bool-cases (id === j)) [
          | inl e ↦
              subst (λ i. d.ledger.find_by_reference (outcome_reference o i) s.ledger ≡ none)
                ((===_iff id j).0 e) (new.not_settled o)
          | inr e ↦
              k.unsettled j o {w = w} (sym (find-create_other (is_same_id j) rows row e) ∙ there)
                open_yet
        ] in
      post_in_database-unused d laws (outcome_reference o j) (reservation_of d laws input id)
        (some (escrow_account input.wallet_address)) s.ledger {r = posted}
        (outcome-ne-reserve o j id) before p

  pub after_reservation-IsBacked :
      (input : ReserveWithdrawalInput) (id signature : String) (s : WithdrawalTables L T)
      (posted : L × PostedTransaction)
      → ltb_ℤ (pos 0) input.amount ≡ true
      → IsNew d laws id s
      → post_in_database d
          (reservation_of d laws input id)
          (some (escrow_account input.wallet_address))
          s.ledger
        ≡ ok posted
      → IsBacked d laws s
      → IsBacked d laws ((after_reservation d laws input id posted signature s).0)
  after_reservation-IsBacked input id signature s posted positive new p k =
      let rows = withdrawal_rows d laws s.withdrawals in
      let row = new_row d laws input id signature (posted.1).id s in
      let created = laws.tables.create_rows row s.withdrawals in
      record {
        backed = λ wallet.
            reserve-backed input id signature s posted new p k wallet
            ∙ ap (reserved_total wallet) (sym created);
        unique = λ j.
            subst (λ ws. count_by (is_same_id j) ws ≤ 1) (sym created)
              (count-new id j rows row refl new.no_row (k.unique j));
        positive =
            subst (λ ws. All (λ w. ltb_ℤ (pos 0) w.amount ≡ true) ws) (sym created)
              (All-append (λ w. ltb_ℤ (pos 0) w.amount ≡ true) rows (row ∷ []) k.positive
                (positive, tt));
        unsettled = λ j o {w} there open_yet.
            reserve-unsettled input id signature s posted new p k j o {w = w}
              (ap (find (is_same_id j)) (sym created) ∙ there) open_yet;
      }

  reserve_unless_found-IsBacked :
      (found : Option Withdrawal) (input : ReserveWithdrawalInput)
      (sign : WithdrawalDraft → Result StoreError String) (id : String) (s : WithdrawalTables L T)
      {r : WithdrawalTables L T × Withdrawal}
      → ltb_ℤ (pos 0) input.amount ≡ true
      → IsNew d laws id s
      → reserve_unless_found d found input sign id s ≡ ok r
      → IsBacked d laws s
      → IsBacked d laws (r.0)
  unfolding reserve_unless_found
  reserve_unless_found-IsBacked (some existing) input sign id s {r} positive new h k =
      let (_, _, same) =
        >>=-eq-ok (require (matches_input input existing) "IDEMPOTENCY_CONFLICT") _ h in
      subst (λ (x : WithdrawalTables L T × Withdrawal). IsBacked d laws (x.0)) (ok-injective same) k
  reserve_unless_found-IsBacked none input sign id s {r} positive new h k =
      let (posted, signature, p, same) =
        reserve_unless_found-parts d laws input sign id s {r = r} h in
      subst (λ (x : WithdrawalTables L T × Withdrawal). IsBacked d laws (x.0)) same
        (after_reservation-IsBacked input id signature s posted positive new p k)

  -- If what is reserved for every wallet stands on its account, it still does after a reservation of
  -- a positive amount under a new identifier.
  pub reserve_in_database-IsBacked :
      (input : ReserveWithdrawalInput) (sign : WithdrawalDraft → Result StoreError String)
      (id : String) (s : WithdrawalTables L T) {r : WithdrawalTables L T × Withdrawal}
      → ltb_ℤ (pos 0) input.amount ≡ true
      → IsNew d laws id s
      → reserve_in_database d input sign id s ≡ ok r
      → IsBacked d laws s
      → IsBacked d laws (r.0)
  unfolding reserve_in_database
  reserve_in_database-IsBacked input sign id s {r} positive new h k =
      reserve_unless_found-IsBacked
        (existing_for d input.idempotency_key input.user_id s.withdrawals) input sign id s {r = r}
        positive new h k

  abbrev pub next_of : Option WalletWithdrawalNonce → ℕ
  next_of none = 0
  next_of (some row) = row.next_nonce

  -- The nonce that the next withdrawal of this wallet, chain and escrow gets.
  abbrev pub next_nonce_of : ReserveWithdrawalInput → WithdrawalTables L T → ℕ
  next_nonce_of input s = next_of (find (is_nonce_of input) (laws.tables.rows s.nonces))

  upsert-nonce :
      (input : ReserveWithdrawalInput) (s : WithdrawalTables L T)
      → (((bumped d laws input s).0).next_nonce - 1 ≡ next_nonce_of input s)
        × (next_of (find (is_nonce_of input) (laws.tables.rows ((bumped d laws input s).1)))
            ≡ next_nonce_of input s + 1)
  upsert-nonce input s =
      let rows = laws.tables.rows s.nonces in
      let p = is_nonce_of input in
      elim (Option-cases (find p rows)) [
        | inl e ↦
            let (row, all) = laws.tables.upsert_new p (first_nonce input) increment s.nonces e in
            let own : p (first_nonce input) ≡ true =
              ground (arith, ===_refl input.escrow_address, ===_refl input.wallet_address) in
            (
              ap (λ (r : WalletWithdrawalNonce). r.next_nonce - 1) row ∙ sym (ap next_of e),
              ap (λ ws. next_of (find p ws)) all
                  ∙ ap next_of (find-create_self p rows (first_nonce input) e own)
                  ∙ sym (ap (λ o. next_of o + 1) e),
            )
        | inr (old, e) ↦
            let (row, all) =
              laws.tables.upsert_old p (first_nonce input) increment s.nonces {old = old} e in
            let minus : old.next_nonce + 1 - 1 ≡ old.next_nonce = omega arith in
            let hit : updated p increment old ≡ increment old =
              ap (λ b. if b then increment old else old) (find_passes p rows e) in
            (
              ap (λ (r : WalletWithdrawalNonce). r.next_nonce - 1) row ∙ minus ∙ sym (ap next_of e),
              ap (λ ws. next_of (find p ws)) all
                  ∙ ap next_of (find-updated p p increment rows {x = old} (λ r. refl) e)
                  ∙ ap (λ (r : WalletWithdrawalNonce). r.next_nonce) hit
                  ∙ sym (ap (λ o. next_of o + 1) e),
            )
      ]

  -- A new reservation gets the next nonce of its wallet, chain and escrow, and moves that nonce on by
  -- one.
  pub reserve_unless_found-nonce :
      (input : ReserveWithdrawalInput) (sign : WithdrawalDraft → Result StoreError String)
      (id : String) (s : WithdrawalTables L T) {r : WithdrawalTables L T × Withdrawal}
      → reserve_unless_found d none input sign id s ≡ ok r
      → ((r.1).nonce ≡ next_nonce_of input s) × (next_nonce_of input (r.0) ≡ (r.1).nonce + 1)
  reserve_unless_found-nonce input sign id s {r} h =
      let (posted, signature, _, same) =
        reserve_unless_found-parts d laws input sign id s {r = r} h in
      let (now, later) = upsert-nonce input s in
      subst
        (λ (x : WithdrawalTables L T × Withdrawal).
          ((x.1).nonce ≡ next_nonce_of input s) × (next_nonce_of input (x.0) ≡ (x.1).nonce + 1))
        same (now, later ∙ ap (λ n. n + 1) (sym now))
