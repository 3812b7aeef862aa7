-- ===== src/Store/Withdrawals/Settle.antt =====
-- packages/db/src/withdrawal.ts: what the settlement of a withdrawal does.
use porker_monorepo.Base.{
  ===_iff, ===_ne, All, Bool, Bool-cases, Option, Option-cases, String, ap, arith, count_by, false,
  find, find_passes, if◌then◌else◌, inl, inr, map, none, ok, refl, some, some-injective, subst, sym,
  true, ℕ, ◌===◌, ◌∙◌, ◌≡◌, ◌≢◌, ◌≤◌,
}
use porker_monorepo.Ledger.{PostTransactionInput, PostedTransaction, transfer_of}
use porker_monorepo.Ledger.Integers.{int_laws, ltb_ℤ, minus_ℤ, pos, ℤ, ◌+ℤ◌}
use porker_monorepo.Ledger.Totals.{part}
use porker_monorepo.Ledger.Transfers.{moved}
use porker_monorepo.Store.{Database, post_in_database}
use porker_monorepo.Store.Rows.{
  All-updated, StoreLaws, count-updated, find-updated, find-updated-none, post_in_database-moved,
  post_in_database-unused, updated,
}
use porker_monorepo.Store.Withdrawals.{
  Outcome, Withdrawal, WithdrawalTables, is_same_id, outcome_reference, reserved, reserved_account,
  settled_account, settled_row,
}
use porker_monorepo.Store.Withdrawals.Backed.{reserved_total, reserved_total-settle}
use porker_monorepo.Store.Withdrawals.Names.{outcome-ne_other, reserved-same, settled-ne-reserved}
use porker_monorepo.Store.Withdrawals.Sound.{IsBacked, withdrawal_rows}

paid_back : (b : Bool) (a t u : ℤ) → part b a +ℤ t ≡ u → u +ℤ (part b (minus_ℤ a) +ℤ pos 0) ≡ t
paid_back true a t u h = rw (← h) (returned a t)
  where
    returned : (a t : ℤ) → a +ℤ t +ℤ (minus_ℤ a +ℤ pos 0) ≡ t
    returned a t = omega int_laws
paid_back false a t u h = rw (← h) (kept t)
  where
    kept : (t : ℤ) → pos 0 +ℤ t +ℤ (pos 0 +ℤ pos 0) ≡ t
    kept t = omega int_laws

module _ {L : Type 0} {T : Type 0 → Type 0} (d : Database L T) (laws : StoreLaws d) where
  abbrev pub settlement_of : String → Outcome → Withdrawal → PostTransactionInput
  settlement_of id o w =
      transfer_of d.ledger d.digest (outcome_reference o id) (reserved_account w.wallet_address)
        (settled_account o w) w.amount

  abbrev pub after_settlement :
      String
      → Outcome
      → Option String
      → ℕ
      → L × PostedTransaction
      → WithdrawalTables L T
      → WithdrawalTables L T
  after_settlement id o hash now posted s = record s {
    ledger = posted.0;
    withdrawals =
        d.tables.update (is_same_id id) (settled_row o hash (posted.1).id now) s.withdrawals;
  }

  moved-settle :
      (o : Outcome) (w : Withdrawal) (wallet : String)
      → moved
          (reserved_account w.wallet_address)
          (settled_account o w)
          w.amount
          (reserved_account wallet)
        ≡ part (w.wallet_address === wallet) (minus_ℤ w.amount) +ℤ pos 0
  moved-settle o w wallet =
      let away : (settled_account o w === reserved_account wallet) ≡ false =
        ===_ne (settled_account o w) (reserved_account wallet) (settled-ne-reserved o w wallet) in
      rw (away, reserved-same w.wallet_address wallet) refl

  settle-unsettled :
      (id : String) (o : Outcome) (hash : Option String) (now : ℕ) (s : WithdrawalTables L T)
      (w : Withdrawal) (posted : L × PostedTransaction)
      → post_in_database d
          (settlement_of id o w)
          (some (reserved_account w.wallet_address))
          s.ledger
        ≡ ok posted
      → IsBacked d laws s
      → (j : String) (p : Outcome) {v : Withdrawal}
      → find (is_same_id j) (
          map
            (updated (is_same_id id) (settled_row o hash (posted.1).id now))
            (withdrawal_rows d laws s.withdrawals))
        ≡ some v
      → v.status ≡ reserved
      → d.ledger.find_by_reference (outcome_reference p j) (posted.0) ≡ none
  settle-unsettled id o hash now s w posted h k j p {v} there open_yet =
      let rows = withdrawal_rows d laws s.withdrawals in
      let f = settled_row o hash (posted.1).id now in
      elim (Option-cases (find (is_same_id j) rows)) [
        | inl e ↦ absurd (
            ground
              (arith, find-updated-none (is_same_id id) (is_same_id j) f rows (λ r. refl) e, there))
        | inr (u, e) ↦
            let found : v ≡ updated (is_same_id id) f u = some-injective (
              sym there
              ∙ find-updated (is_same_id id) (is_same_id j) f rows {x = u} (λ r. refl) e) in
            elim (Bool-cases (is_same_id id u)) [
              | inl mine ↦
                  let closed : v ≡ f u = found ∙ ap (λ b. if b then f u else u) mine in
                  absurd (cc (ap (λ (x : Withdrawal). x.status) closed, open_yet))
              | inr other ↦
                  let same : v ≡ u = found ∙ ap (λ b. if b then f u else u) other in
                  let own : u.id ≡ j = (===_iff u.id j).0 (find_passes (is_same_id j) rows e) in
                  let apart : j ≢ id = λ q. cc (other, (===_iff u.id id).1 (own ∙ q)) in
                  post_in_database-unused d laws (outcome_reference p j) (settlement_of id o w)
                    (some (reserved_account w.wallet_address)) s.ledger {r = posted}
                    (outcome-ne_other p o j id apart)
                    (k.unsettled j p {w = u} e
                      (sym (ap (λ (x : Withdrawal). x.status) same) ∙ open_yet))
                    h
            ]
      ]

  pub after_settlement-IsBacked :
      (id : String) (o : Outcome) (hash : Option String) (now : ℕ) (s : WithdrawalTables L T)
      {w : Withdrawal} (posted : L × PostedTransaction)
      → find (is_same_id id) (withdrawal_rows d laws s.withdrawals) ≡ some w
      → w.status ≡ reserved
      → post_in_database d
          (settlement_of id o w)
          (some (reserved_account w.wallet_address))
          s.ledger
        ≡ ok posted
      → IsBacked d laws s
      → IsBacked d laws (after_settlement id o hash now posted s)
  after_settlement-IsBacked id o hash now s {w} posted found open_yet h k =
      let rows = withdrawal_rows d laws s.withdrawals in
      let f = settled_row o hash (posted.1).id now in
      let changed = laws.tables.update_rows (is_same_id id) f s.withdrawals in
      record {
        backed = λ wallet.
            post_in_database-moved d laws (outcome_reference o id)
              (reserved_account w.wallet_address) (settled_account o w) w.amount
              (some (reserved_account w.wallet_address)) s.ledger {r = posted}
              (k.unsettled id o {w = w} found open_yet) h (reserved_account wallet)
            ∙ ap
                (λ x.
                  x
                  +ℤ moved (reserved_account w.wallet_address) (settled_account o w) w.amount
                      (reserved_account wallet))
                (k.backed wallet)
            ∙ ap (λ x. reserved_total wallet rows +ℤ x) (moved-settle o w wallet)
            ∙ paid_back (w.wallet_address === wallet) w.amount
                (reserved_total wallet (map (updated (is_same_id id) f) rows))
                (reserved_total wallet rows)
                (reserved_total-settle wallet id f rows {w = w} (k.unique id) found open_yet
                  (λ r. refl))
            ∙ ap (reserved_total wallet) (sym changed);
        unique = λ j.
            subst (λ ws. count_by (is_same_id j) ws ≤ 1) (sym changed)
              (subst (λ n. n ≤ 1)
                (sym (count-updated (is_same_id id) (is_same_id j) f rows (λ r. refl)))
                (k.unique j));
        positive =
            subst (λ ws. All (λ v. ltb_ℤ (pos 0) v.amount ≡ true) ws) (sym changed)
              (All-updated (λ v. ltb_ℤ (pos 0) v.amount ≡ true) (is_same_id id) f rows (λ r q. q)
                k.positive);
        unsettled = λ j p {w = v} there still.
            settle-unsettled id o hash now s w posted h k j p {v = v}
              (ap (find (is_same_id j)) (sym changed) ∙ there) still;
      }
