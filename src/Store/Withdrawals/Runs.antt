-- ===== src/Store/Withdrawals/Runs.antt =====
-- packages/db/src/withdrawal.ts: the two operations as steps, and a reservation that is released.
use porker_monorepo.Base.{
  ===_refl, Bool, Option, Result, String, ap, false, find, none, ok, ok-injective, refl, some,
  subst, sym, true, ℕ, ◌===◌, ◌∙◌, ◌≡◌,
}
use porker_monorepo.Ledger.Integers.{int_laws, ltb_ℤ, minus_ℤ, pos, ℤ, ◌+ℤ◌}
use porker_monorepo.Ledger.Totals.{part}
use porker_monorepo.Ledger.Transfers.{moved}
use porker_monorepo.Store.{Database, StoreError}
use porker_monorepo.Store.Rows.{StoreLaws, find-create_self, post_in_database-moved}
use porker_monorepo.Store.Withdrawals.{
  Outcome, ReserveWithdrawalInput, Withdrawal, WithdrawalDraft, WithdrawalStatus, WithdrawalTables,
  escrow_account, existing_for, is_same_id, completed, outcome_reference, released,
  reserve_in_database, reserve_reference, reserve_unless_found, reserved, reserved_account,
  settle_if_found, settle_reserved, settled_account, settled_with, transition_in_database,
}
use porker_monorepo.Store.Withdrawals.Refines.{
  Run, SpecStep, Step, here, idle, moved_to, next, reserve, reserve_unless_found-refines,
  settle-entry, settles, destination, entry_from, entry_of, transition, view, view_ext,
}
use porker_monorepo.Store.Withdrawals.Reserve.{
  after_reservation-IsBacked, reserve_in_database-IsBacked,
}
use porker_monorepo.Store.Withdrawals.Settle.{after_settlement}
use porker_monorepo.Store.Withdrawals.Sound.{
  IsBacked, IsNew, after_reservation, new_row, reserve_unless_found-parts, withdrawal_rows,
}
use porker_monorepo.Store.Withdrawals.Transition.{
  settle_reserved-parts, transition_in_database-IsBacked,
}

restored :
    (b c : Bool) (x a : ℤ)
    → x +ℤ (part b (minus_ℤ a) +ℤ part c a) +ℤ (part c (minus_ℤ a) +ℤ part b a) ≡ x
restored true true x a = omega int_laws
restored true false x a = omega int_laws
restored false true x a = omega int_laws
restored false false x a = omega int_laws

goes_to : (o : Outcome) (w : Withdrawal) → settled_account o w ≡ destination o (entry_from w)
goes_to completed w = refl
goes_to released w = refl

module _ {L : Type 0} {T : Type 0 → Type 0} (d : Database L T) (laws : StoreLaws d) where
  settle_reserved-refines :
      (status : WithdrawalStatus) (id : String) (w : Withdrawal) (o : Outcome)
      (hash : Option String) (now : ℕ) (s s' : WithdrawalTables L T) (v : Option Withdrawal)
      → find (is_same_id id) (withdrawal_rows d laws s.withdrawals) ≡ some w
      → w.status ≡ status
      → settle_reserved d status id w o hash now s ≡ ok (s', v)
      → IsBacked d laws s
      → SpecStep (view d laws s) (view d laws s')
  unfolding settle_reserved
  settle_reserved-refines (settled_with before) id w o hash now s s' v found at h k = idle (
      ap (λ (x : WithdrawalTables L T × Option Withdrawal). view d laws (x.0))
        (sym (ok-injective h)))
  settle_reserved-refines reserved id w o hash now s s' v found at h k =
      let (posted, p, same) = settle_reserved-parts d laws id w o hash now s {r = (s', v)} h in
      let after = after_settlement d laws id o hash now posted s in
      settles id o (entry_from w) (ap entry_of found) at (
        ap (λ (x : WithdrawalTables L T × Option Withdrawal). view d laws (x.0)) (sym same)
        ∙ view_ext d laws (view d laws after)
            (moved_to (reserved_account w.wallet_address) (destination o (entry_from w)) id
              (record (entry_from w) { status = settled_with o }) (view d laws s))
            (λ a.
              post_in_database-moved d laws (outcome_reference o id)
                (reserved_account w.wallet_address) (settled_account o w) w.amount
                (some (reserved_account w.wallet_address)) s.ledger {r = posted}
                (k.unsettled id o {w = w} found at) p a
              ∙ ap
                  (λ to.
                    d.ledger.account_sum a s.ledger
                    +ℤ moved (reserved_account w.wallet_address) to w.amount a)
                  (goes_to o w))
            (λ j. settle-entry d laws id o hash now s w posted j found))

  settle_if_found-refines :
      (current : Option Withdrawal) (id : String) (o : Outcome) (hash : Option String) (now : ℕ)
      (s s' : WithdrawalTables L T) (v : Option Withdrawal)
      → find (is_same_id id) (withdrawal_rows d laws s.withdrawals) ≡ current
      → settle_if_found d current id o hash now s ≡ ok (s', v)
      → IsBacked d laws s
      → SpecStep (view d laws s) (view d laws s')
  unfolding settle_if_found
  settle_if_found-refines none id o hash now s s' v found h k = idle (
      ap (λ (x : WithdrawalTables L T × Option Withdrawal). view d laws (x.0))
        (sym (ok-injective h)))
  settle_if_found-refines (some w) id o hash now s s' v found h k =
      settle_reserved-refines w.status id w o hash now s s' v found refl h k

  -- Every step of the two operations that goes through, on a database where what is reserved stands
  -- on its accounts, is a step of the abstract machine: nothing changes, or an unknown withdrawal is
  -- reserved, its amount moved to the account reserved for its wallet, or a reserved one is settled,
  -- with that same amount moved on to the treasury it names or back to the escrow of its wallet.
  pub Step-SpecStep :
      (s s' : WithdrawalTables L T)
      → Step d laws s s'
      → IsBacked d laws s
      → SpecStep (view d laws s) (view d laws s')
  unfolding reserve_in_database transition_in_database
  Step-SpecStep s s' (reserve input sign id w positive new h) k =
      reserve_unless_found-refines d laws
        (existing_for d input.idempotency_key input.user_id s.withdrawals) input sign id s s' w new
        h
  Step-SpecStep s s' (transition id o hash now v h) k =
      settle_if_found-refines (d.tables.find_first (is_same_id id) s.withdrawals) id o hash now s s'
        v (sym (laws.tables.find_rows (is_same_id id) s.withdrawals)) h k

  Step-IsBacked :
      (s s' : WithdrawalTables L T) → Step d laws s s' → IsBacked d laws s → IsBacked d laws s'
  Step-IsBacked s s' (reserve input sign id w positive new h) k =
      reserve_in_database-IsBacked d laws input sign id s {r = (s', w)} positive new h k
  Step-IsBacked s s' (transition id o hash now v h) k =
      transition_in_database-IsBacked d laws id o hash now s {r = (s', v)} h k

  -- Over any sequence of reservations and transitions, the sum of the reserved withdrawals of every
  -- wallet stays on the account of its reservations, the amounts stay positive and the identifiers
  -- unique, and no reserved withdrawal has a settlement in the ledger.
  pub Run-IsBacked :
      (s s' : WithdrawalTables L T) → Run d laws s s' → IsBacked d laws s → IsBacked d laws s'
  Run-IsBacked s s' here k = k
  Run-IsBacked s s' (next {t} r step) k = Step-IsBacked t s' step (Run-IsBacked s t r k)

  -- A withdrawal that is reserved anew and then released leaves every balance as it was.
  pub release_restores :
      (input : ReserveWithdrawalInput) (sign : WithdrawalDraft → Result StoreError String)
      (id : String) (s : WithdrawalTables L T) (t : WithdrawalTables L T × Withdrawal)
      (hash : Option String) (now : ℕ) (r : WithdrawalTables L T × Option Withdrawal)
      → ltb_ℤ (pos 0) input.amount ≡ true
      → IsNew d laws id s
      → IsBacked d laws s
      → reserve_unless_found d none input sign id s ≡ ok t
      → transition_in_database d id released hash now (t.0) ≡ ok r
      → (a : String) → d.ledger.account_sum a ((r.0).ledger) ≡ d.ledger.account_sum a s.ledger
  unfolding transition_in_database settle_if_found
  release_restores input sign id s t hash now r positive new k h g a =
      let (posted, signature, p, same) =
        reserve_unless_found-parts d laws input sign id s {r = t} h in
      let from = escrow_account input.wallet_address in
      let to = reserved_account input.wallet_address in
      let row = new_row d laws input id signature (posted.1).id s in
      let mid = (after_reservation d laws input id posted signature s).0 in
      let there : find (is_same_id id) (laws.tables.rows mid.withdrawals) ≡ some row =
        ap (find (is_same_id id)) (laws.tables.create_rows row s.withdrawals)
        ∙ find-create_self (is_same_id id) (laws.tables.rows s.withdrawals) row new.no_row
            (===_refl id) in
      let backed = after_reservation-IsBacked d laws input id signature s posted positive new p k in
      let g' : transition_in_database d id released hash now mid ≡ ok r =
        subst
          (λ (x : WithdrawalTables L T × Withdrawal).
            transition_in_database d id released hash now (x.0) ≡ ok r)
          (sym same) g in
      let g2 : settle_reserved d reserved id row released hash now mid ≡ ok r =
        ap (λ c. settle_if_found d c id released hash now mid)
          (sym (laws.tables.find_rows (is_same_id id) mid.withdrawals ∙ there))
        ∙ g' in
      let (release, q, last) =
        settle_reserved-parts d laws id row released hash now mid {r = r} g2 in
      ap (λ (x : WithdrawalTables L T × Option Withdrawal). d.ledger.account_sum a ((x.0).ledger))
        (sym last)
      ∙ post_in_database-moved d laws (outcome_reference released id) to from input.amount (some to)
          mid.ledger {r = release} (backed.unsettled id released {w = row} there refl) q a
      ∙ ap (λ x. x +ℤ moved to from input.amount a)
          (post_in_database-moved d laws (reserve_reference id) from to input.amount (some from)
            s.ledger {r = posted} new.not_reserved p a)
      ∙ restored (from === a) (to === a) (d.ledger.account_sum a s.ledger) input.amount
