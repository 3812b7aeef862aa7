-- ===== src/Store/Withdrawals/Once.antt =====
-- packages/db/src/withdrawal.ts: the idempotency keys.
use porker_monorepo.Base.{
  ===_ne, ===_refl, ==_iff, Result, String, ap, arith, false, find, if◌then◌else◌, none, ok, refl,
  some, subst, sym, true, ◌&&◌, ◌===◌, ◌==◌, ◌>>=◌, ◌∙◌, ◌≡◌, ◌≢◌,
}
use porker_monorepo.Ledger.Integers.{int_laws, is_zero, pos, ℤ, ◌-ℤ◌}
use porker_monorepo.Store.{Database, StoreError, require}
use porker_monorepo.Store.Rows.{StoreLaws, find-create_self}
use porker_monorepo.Store.Withdrawals.{
  ReserveWithdrawalInput, Withdrawal, WithdrawalDraft, WithdrawalTables, existing_for, has_key,
  matches_input, reserve_in_database, reserve_unless_found, same_amount,
}
use porker_monorepo.Store.Withdrawals.Sound.{after_reservation, new_row, reserve_unless_found-parts}

same_amount_self : (a : ℤ) → same_amount a a ≡ true
same_amount_self a =
    let none_left : a -ℤ a ≡ pos 0 = omega int_laws in
    let zero_is : is_zero (pos 0) ≡ true = refl in ap is_zero none_left ∙ zero_is

module _ {L : Type 0} {T : Type 0 → Type 0} (d : Database L T) (laws : StoreLaws d) where
  -- A reservation under a key that is repeated with the same input returns the withdrawal that the
  -- first one made, and changes nothing.
  pub reserve_in_database-once :
      (input : ReserveWithdrawalInput) (key : String)
      (sign again : WithdrawalDraft → Result StoreError String) (id other : String)
      (s : WithdrawalTables L T) {r : WithdrawalTables L T × Withdrawal}
      → input.idempotency_key ≡ some key
      → key ≢ ""
      → find (has_key input.user_id key) (laws.tables.rows s.withdrawals) ≡ none
      → reserve_in_database d input sign id s ≡ ok r
      → reserve_in_database d input again other (r.0) ≡ ok r
  unfolding reserve_in_database
  reserve_in_database-once input key sign again id other s {r} keyed named fresh h =
      let rows = laws.tables.rows s.withdrawals in
      let real : (key === "") ≡ false = ===_ne key "" named in
      let look : (t : WithdrawalTables L T)
          → existing_for d input.idempotency_key input.user_id t.withdrawals
            ≡ find (has_key input.user_id key) (laws.tables.rows t.withdrawals) =
        λ t.
          ap (λ k. existing_for d k input.user_id t.withdrawals) keyed
          ∙ ap
              (λ b.
                if b then none else d.tables.find_first (has_key input.user_id key) t.withdrawals)
              real
          ∙ laws.tables.find_rows (has_key input.user_id key) t.withdrawals in
      let h' : reserve_unless_found d none input sign id s ≡ ok r =
        ap (λ o. reserve_unless_found d o input sign id s) (sym (look s ∙ fresh)) ∙ h in
      let (posted, signature, _, same) =
        reserve_unless_found-parts d laws input sign id s {r = r} h' in
      let row = new_row d laws input id signature (posted.1).id s in
      let after = (after_reservation d laws input id posted signature s).0 in
      let own : has_key input.user_id key row ≡ true =
        ap (λ k. input.user_id === input.user_id && elim k [ none ↦ false | some j ↦ j === key ])
          keyed
        ∙ ground (arith, ===_refl input.user_id, ===_refl key) in
      let there : existing_for d input.idempotency_key input.user_id after.withdrawals ≡ some row =
        look after
        ∙ ap (find (has_key input.user_id key)) (laws.tables.create_rows row s.withdrawals)
        ∙ find-create_self (has_key input.user_id key) rows row fresh own in
      let chains : (input.chain_id == input.chain_id) ≡ true =
        (==_iff input.chain_id input.chain_id).1 refl in
      let agrees : matches_input input row ≡ true =
        rw (same_amount_self input.amount, chains, ===_refl input.escrow_address) refl in
      subst
        (λ (x : WithdrawalTables L T × Withdrawal).
          reserve_in_database d input again other (x.0) ≡ ok x)
        same
        (ap (λ o. reserve_unless_found d o input again other after) there
          ∙ once_found input again other after row agrees)
    where
      once_found :
          (input : ReserveWithdrawalInput) (again : WithdrawalDraft → Result StoreError String)
          (other : String) (after : WithdrawalTables L T) (row : Withdrawal)
          → matches_input input row ≡ true
          → reserve_unless_found d (some row) input again other after ≡ ok (after, row)
      once_found input again other after row agrees =
          ap (λ b. require b "IDEMPOTENCY_CONFLICT" >>= λ _. ok (after, row)) agrees
