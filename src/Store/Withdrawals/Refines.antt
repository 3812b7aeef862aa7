-- ===== src/Store/Withdrawals/Refines.antt =====
-- packages/db/src/withdrawal.ts against an abstract machine: balances, and the status of each
-- withdrawal.
use porker_monorepo.Base.{
  ===_iff, ===_ne, some-injective, >>=-eq-ok, Bool-cases, Option, Option-cases, Result, String, ap,
  false, find, find_passes, if◌then◌else◌, inl, inr, none, ok, ok-injective, refl, some, subst, sym,
  true, ℕ, ◌===◌, ◌∙◌, ◌≡◌,
}
use porker_monorepo.Ledger.{PostedTransaction}
use porker_monorepo.Ledger.Integers.{ltb_ℤ, pos, ℤ, ◌+ℤ◌}
use porker_monorepo.Ledger.Transfers.{moved}
use porker_monorepo.Store.{Database, StoreError, require}
use porker_monorepo.Store.Rows.{
  StoreLaws, find-create_other, find-create_self, find-updated, find-updated-none,
  post_in_database-moved,
}
use porker_monorepo.Store.Withdrawals.{
  Outcome, ReserveWithdrawalInput, Withdrawal, WithdrawalDraft, WithdrawalStatus, WithdrawalTables,
  escrow_account, is_same_id, matches_input, reserve_in_database, reserve_reference,
  reserve_unless_found, reserved, reserved_account, settled_row, settled_with,
  transition_in_database, treasury_account, completed, released,
}
use porker_monorepo.Store.Withdrawals.Settle.{after_settlement}
use porker_monorepo.Store.Withdrawals.Sound.{
  IsNew, after_reservation, new_row, reserve_unless_found-parts, withdrawal_rows,
}

-- What the machine knows of a withdrawal: its amount, the wallet that it is for, the account that is
-- paid when it completes, and its status.
pub record Entry : Type 0 where
  pub wallet : String
  pub amount : ℤ
  pub treasury : String
  pub status : WithdrawalStatus

pub record View : Type 0 where
  pub balance : String → ℤ
  pub entry : String → Option Entry

abbrev pub entry_from : Withdrawal → Entry
entry_from w = record {
  wallet = w.wallet_address;
  amount = w.amount;
  treasury = treasury_account w.chain_id w.escrow_address;
  status = w.status;
}

abbrev pub entry_of : Option Withdrawal → Option Entry
entry_of none = none
entry_of (some w) = some (entry_from w)

-- Where the amount of a withdrawal goes in the end: to the treasury, or back to the escrow.
abbrev pub destination : Outcome → Entry → String
destination completed e = e.treasury
destination released e = escrow_account e.wallet

-- An amount moves between two accounts, and the entry of a withdrawal is written.
abbrev pub moved_to : String → String → String → Entry → View → View
moved_to from to id e v = record {
  balance = λ a. v.balance a +ℤ moved from to e.amount a;
  entry = λ j. if id === j then some e else v.entry j;
}

-- The steps of the machine: an unknown withdrawal is reserved, with its amount moved from the escrow
-- of its wallet to what is reserved for that wallet; a reserved one is settled, with the amount that
-- was reserved for it moved on, and nothing of it changed but the status.
pub data SpecStep (v v' : View) : Type 0 where
  idle : v' ≡ v → SpecStep v v'
  reserves :
      (id : String) (e : Entry)
      → v.entry id ≡ none
      → e.status ≡ reserved
      → v' ≡ moved_to (escrow_account e.wallet) (reserved_account e.wallet) id e v
      → SpecStep v v'
  settles :
      (id : String) (o : Outcome) (e : Entry)
      → v.entry id ≡ some e
      → e.status ≡ reserved
      → v'
        ≡ moved_to
            (reserved_account e.wallet)
            (destination o e)
            id
            (record e { status = settled_with o })
            v
      → SpecStep v v'

-- The two operations, on a database that satisfies the invariant.
pub data Step {L : Type 0} {T : Type 0 → Type 0} (d : Database L T) (laws : StoreLaws d)
    (s s' : WithdrawalTables L T) : Type 0 where
  reserve :
      (input : ReserveWithdrawalInput) (sign : WithdrawalDraft → Result StoreError String)
      (id : String) (w : Withdrawal)
      → ltb_ℤ (pos 0) input.amount ≡ true
      → IsNew d laws id s
      → reserve_in_database d input sign id s ≡ ok (s', w)
      → Step d laws s s'
  transition :
      (id : String) (o : Outcome) (hash : Option String) (now : ℕ) (w : Option Withdrawal)
      → transition_in_database d id o hash now s ≡ ok (s', w)
      → Step d laws s s'

pub data Run {L : Type 0} {T : Type 0 → Type 0} (d : Database L T) (laws : StoreLaws d)
    (s : WithdrawalTables L T) : WithdrawalTables L T → Type 0 where
  here : Run d laws s s
  next : {t u : WithdrawalTables L T} → Run d laws s t → Step d laws t u → Run d laws s u

module _ {L : Type 0} {T : Type 0 → Type 0} (d : Database L T) (laws : StoreLaws d) where
  abbrev pub view : WithdrawalTables L T → View
  view s = record {
    balance = λ a. d.ledger.account_sum a s.ledger;
    entry = λ id. entry_of (find (is_same_id id) (laws.tables.rows s.withdrawals));
  }

  -- Views are equal if all balances and all entries are.
  pub view_ext :
      (v w : View)
      → ((a : String) → v.balance a ≡ w.balance a)
      → ((id : String) → v.entry id ≡ w.entry id)
      → v ≡ w
  view_ext v w b t = λ i. record { balance = λ a. b a i; entry = λ id. t id i }

  reserve-entry :
      (input : ReserveWithdrawalInput) (id signature : String) (s : WithdrawalTables L T)
      (posted : L × PostedTransaction) (j : String)
      → IsNew d laws id s
      → (view ((after_reservation d laws input id posted signature s).0)).entry j ≡ (
          if id === j
          then some (entry_from (new_row d laws input id signature (posted.1).id s))
          else (view s).entry j)
  reserve-entry input id signature s posted j new =
      let rows = withdrawal_rows d laws s.withdrawals in
      let row = new_row d laws input id signature (posted.1).id s in
      let created =
        ap (λ ws. entry_of (find (is_same_id j) ws)) (laws.tables.create_rows row s.withdrawals) in
      elim (Bool-cases (id === j)) [
        | inl e ↦
            let none_yet : find (is_same_id j) rows ≡ none =
              subst (λ k. find (is_same_id k) rows ≡ none) ((===_iff id j).0 e) new.no_row in
            rw e (created ∙ ap entry_of (find-create_self (is_same_id j) rows row none_yet e))
        | inr e ↦ rw e (created ∙ ap entry_of (find-create_other (is_same_id j) rows row e))
      ]

  pub reserve_unless_found-refines :
      (found : Option Withdrawal) (input : ReserveWithdrawalInput)
      (sign : WithdrawalDraft → Result StoreError String) (id : String)
      (s s' : WithdrawalTables L T) (w : Withdrawal)
      → IsNew d laws id s
      → reserve_unless_found d found input sign id s ≡ ok (s', w)
      → SpecStep (view s) (view s')
  unfolding reserve_unless_found
  reserve_unless_found-refines (some existing) input sign id s s' w new h =
      let (_, _, same) =
        >>=-eq-ok (require (matches_input input existing) "IDEMPOTENCY_CONFLICT") _ h in
      idle (ap (λ (x : WithdrawalTables L T × Withdrawal). view (x.0)) (sym (ok-injective same)))
  reserve_unless_found-refines none input sign id s s' w new h =
      let (posted, signature, p, same) =
        reserve_unless_found-parts d laws input sign id s {r = (s', w)} h in
      let after = (after_reservation d laws input id posted signature s).0 in
      let made = entry_from (new_row d laws input id signature (posted.1).id s) in
      reserves id made (ap entry_of new.no_row) refl (
        ap (λ (x : WithdrawalTables L T × Withdrawal). view (x.0)) (sym same)
        ∙ view_ext (view after)
            (moved_to (escrow_account input.wallet_address) (reserved_account input.wallet_address)
              id made (view s))
            (λ a.
              post_in_database-moved d laws (reserve_reference id)
                (escrow_account input.wallet_address) (reserved_account input.wallet_address)
                input.amount (some (escrow_account input.wallet_address)) s.ledger {r = posted}
                new.not_reserved p a)
            (λ j. reserve-entry input id signature s posted j new))

  pub settle-entry :
      (id : String) (o : Outcome) (hash : Option String) (now : ℕ) (s : WithdrawalTables L T)
      (w : Withdrawal) (posted : L × PostedTransaction) (j : String)
      → find (is_same_id id) (withdrawal_rows d laws s.withdrawals) ≡ some w
      → (view (after_settlement d laws id o hash now posted s)).entry j ≡ (
          if id === j
          then some (record (entry_from w) { status = settled_with o })
          else (view s).entry j)
  settle-entry id o hash now s w posted j found =
      let rows = withdrawal_rows d laws s.withdrawals in
      let f = settled_row o hash (posted.1).id now in
      let changed =
        ap (λ ws. entry_of (find (is_same_id j) ws))
          (laws.tables.update_rows (is_same_id id) f s.withdrawals) in
      elim (Option-cases (find (is_same_id j) rows)) [
        | inl e ↦
            let apart : (id === j) ≡ false =
              ===_ne id j (λ q. cc (found, e, ap (λ k. find (is_same_id k) rows) q)) in
            rw (apart, e)
              (changed
                ∙ ap entry_of
                    (find-updated-none (is_same_id id) (is_same_id j) f rows (λ r. refl) e))
        | inr (u, e) ↦
            let own : u.id ≡ j = (===_iff u.id j).0 (find_passes (is_same_id j) rows e) in
            let all =
              changed
              ∙ ap entry_of
                  (find-updated (is_same_id id) (is_same_id j) f rows {x = u} (λ r. refl) e) in
            elim (Bool-cases (is_same_id id u)) [
              | inl mine ↦
                  let named : id ≡ j = sym ((===_iff u.id id).0 mine) ∙ own in
                  let one : u ≡ w =
                    some-injective
                      (sym e ∙ ap (λ k. find (is_same_id k) rows) (sym named) ∙ found) in
                  let same : (id === j) ≡ true = (===_iff id j).1 named in
                  rw same (
                    all
                    ∙ ap (λ b. entry_of (some (if b then f u else u))) mine
                    ∙ ap (λ x. some (record (entry_from x) { status = settled_with o })) one)
              | inr other ↦
                  let apart : (id === j) ≡ false =
                    ===_ne id j (λ q. cc (other, (===_iff u.id id).1 (own ∙ sym q))) in
                  rw (apart, e) (all ∙ ap (λ b. entry_of (some (if b then f u else u))) other)
            ]
      ]
