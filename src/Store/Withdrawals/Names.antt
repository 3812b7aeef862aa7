-- ===== src/Store/Withdrawals/Names.antt =====
-- packages/db/src/withdrawal.ts: the accounts and the references are told apart by their names.
use Prim.Native.Char.{code}
use Prim.Native.String
use porker_monorepo.Base.{
  String, [], ap, append-apart, append-head, append-injective, append-ne-nil, append-regroup, arith,
  decimal, sym, template, template-last, template-same, ℕ, ◌===◌, ◌∙◌, ◌∷◌, ◌≡◌, ◌≢◌,
}
use porker_monorepo.Store.Withdrawals.{
  Outcome, Withdrawal, completed, escrow_account, outcome_reference, outcome_word, released,
  reserve_reference, reserved_account, settled_account, treasury_account,
}

pub escrow-ne-reserved : (v w : String) → escrow_account v ≢ reserved_account w
escrow-ne-reserved v w h =
    let e = ap code (
      append-head "e" "w" "scrow:" "ithdrawal-reserved:" (String.◌++◌ v "") (String.◌++◌ w "") h) in
    absurd (omega arith)

pub treasury-ne-reserved : (n : ℕ) (v w : String) → treasury_account n v ≢ reserved_account w
treasury-ne-reserved n v w h =
    let e = ap code (
      append-head "t" "w" "reasury:" "ithdrawal-reserved:" (template (decimal n ∷ ":" ∷ v ∷ []))
        (String.◌++◌ w "") h) in
    absurd (omega arith)

pub settled-ne-reserved :
    (o : Outcome) (r : Withdrawal) (w : String) → settled_account o r ≢ reserved_account w
settled-ne-reserved completed r w = treasury-ne-reserved r.chain_id r.escrow_address w
settled-ne-reserved released r w = escrow-ne-reserved r.wallet_address w

-- The accounts of two wallets are the same exactly for the same wallet.
pub reserved-same : (v w : String) → (reserved_account v === reserved_account w) ≡ (v === w)
reserved-same v w = template-same "withdrawal-reserved:" v w

pub reserved_named : (w : String) → reserved_account w ≢ ""
reserved_named w h = append-ne-nil "w" "ithdrawal-reserved:" (String.◌++◌ w "") h

pub escrow_named : (w : String) → escrow_account w ≢ ""
escrow_named w h = append-ne-nil "e" "scrow:" (String.◌++◌ w "") h

abbrev rest_of : String → String
rest_of id = template (":" ∷ id ∷ [])

-- The references of a reservation and of the outcomes do not meet.
pub outcome-ne-reserve : (o : Outcome) (i j : String) → outcome_reference o i ≢ reserve_reference j
outcome-ne-reserve completed i j h =
    append-apart "c" "r" "withdrawal-" "ompleted" "eserve:" (rest_of i) (String.◌++◌ j "")
      (λ e. let n = ap code e in absurd (omega arith))
      (sym (append-regroup "withdrawal-" "completed" (rest_of i)) ∙ h)
outcome-ne-reserve released i j h =
    append-apart "l" "s" "withdrawal-re" "eased" "erve:" (rest_of i) (String.◌++◌ j "")
      (λ e. let n = ap code e in absurd (omega arith))
      (sym (append-regroup "withdrawal-" "released" (rest_of i)) ∙ h)

outcome-ne : (i j : String) → outcome_reference completed i ≢ outcome_reference released j
outcome-ne i j h =
    append-apart "c" "r" "withdrawal-" "ompleted" "eleased" (rest_of i) (rest_of j)
      (λ e. let n = ap code e in absurd (omega arith))
      (sym (append-regroup "withdrawal-" "completed" (rest_of i))
        ∙ h
        ∙ append-regroup "withdrawal-" "released" (rest_of j))

same_outcome : (o : Outcome) (i j : String) → outcome_reference o i ≡ outcome_reference o j → i ≡ j
same_outcome o i j h = template-last ":" i j (
    append-injective (outcome_word o) (rest_of i) (rest_of j) (
      append-injective "withdrawal-" (String.◌++◌ (outcome_word o) (rest_of i))
        (String.◌++◌ (outcome_word o) (rest_of j)) h))

-- Different withdrawals settle under different references.
pub outcome-ne_other :
    (o p : Outcome) (i j : String) → i ≢ j → outcome_reference o i ≢ outcome_reference p j
outcome-ne_other completed completed i j apart h = apart (same_outcome completed i j h)
outcome-ne_other completed released i j apart h = outcome-ne i j h
outcome-ne_other released completed i j apart h = outcome-ne j i (sym h)
outcome-ne_other released released i j apart h = apart (same_outcome released i j h)
