-- ===== src/Ledger/Witnesses.antt =====
-- The theorems about the ledger at a concrete database, and tests of the definitions.
use Prim.Native.Char.{code}
use porker_monorepo.Base.{
  List, Option, String, [], ap, append-head, append-ne-nil, arith, err, if◌then◌else◌, ltb, none,
  ok, refl, some, ℕ, ◌++◌, ◌+◌, ◌<◌, ◌===◌, ◌∷◌, ◌≡◌, ◌≢◌,
}
use porker_monorepo.Ledger.{
  DatabaseFailure, PostTransactionInput, PostedTransaction, PreparedTransaction, get_balance,
  insufficient_funds, normalize_entries, post_prepared_transaction, post_transaction_in_database,
  prepare_transaction, transfer_of, write_conflict,
}
use porker_monorepo.Ledger.Integers.{ltb_ℤ, negsuc, pos, ℤ, ◌+ℤ◌, ◌-ℤ◌}
use porker_monorepo.Ledger.Once.{IsTaken, post_prepared_transaction-IsTaken}
use porker_monorepo.Ledger.Posting.{post_prepared_transaction-balances}
use porker_monorepo.Ledger.Samples.{
  Rows, posted_row, rows_database, rows_hold, rows_laws, rows_references, rows_sum, tagged,
}
use porker_monorepo.Ledger.Totals.{sum_where}
use porker_monorepo.Ledger.Transfers.{post_transaction_in_database-transfer, transferred}

-- Ann has bought 80 chips from the cashier.
abbrev first_rows : Rows
first_rows = record {
  transactions =
      record { id = 0; reference = "deposit-1"; payload_hash = "hash"; entries = [] } ∷ [];
  entries =
      (0, record { account_id = "ann"; amount = pos 80 })
      ∷ (0, record { account_id = "cashier"; amount = negsuc 79 })
      ∷ [];
}

abbrev hashed : List (String × ℤ) → String
hashed es = "hash"

abbrev buy_in : PostTransactionInput
buy_in = transfer_of rows_database hashed "buy-in-1" "ann" "table-1" (pos 50)

abbrev prepared_buy_in : PreparedTransaction
prepared_buy_in = record {
  entries =
      record { account_id = "ann"; amount = negsuc 49 }
      ∷ record { account_id = "table-1"; amount = pos 50 }
      ∷ [];
  payload_hash = "hash";
}

abbrev buy_in_rows : Rows
buy_in_rows = record {
  transactions =
      record { id = 0; reference = "deposit-1"; payload_hash = "hash"; entries = [] }
      ∷ posted_row 1 "buy-in-1" "hash"
      ∷ [];
  entries = first_rows.entries ++ tagged 1 prepared_buy_in.entries;
}

abbrev buy_in_posted : PostedTransaction
buy_in_posted = record {
  id = 1;
  reference = "buy-in-1";
  payload_hash = "hash";
  entries = prepared_buy_in.entries;
}

buy_in_prepares : prepare_transaction rows_database hashed buy_in ≡ ok prepared_buy_in
unfolding prepare_transaction normalize_entries ◌+ℤ◌ ◌-ℤ◌ ◌===◌
buy_in_prepares = refl

buy_in_posts :
    post_prepared_transaction rows_database hashed buy_in prepared_buy_in (some "ann") first_rows
    ≡ ok (buy_in_rows, buy_in_posted)
unfolding post_prepared_transaction ◌+ℤ◌ ◌-ℤ◌ ◌===◌
buy_in_posts = refl

buy_in_fresh : rows_database.find_by_reference buy_in.reference first_rows ≡ none
unfolding ◌===◌
buy_in_fresh = refl

-- Two conflicts, and then a commit.
abbrev busy_twice : ℕ → Option DatabaseFailure
busy_twice n = if ltb n 3 then some write_conflict else none

busy_below : (i : ℕ) → i < 2 → busy_twice (1 + i) ≡ some write_conflict
busy_below i h = ground arith

post_prepared_transaction-balances_example :
    get_balance rows_database hashed "ann" buy_in_rows
    ≡ get_balance rows_database hashed "ann" first_rows
      +ℤ sum_where (λ b. b === "ann") prepared_buy_in.entries
post_prepared_transaction-balances_example =
    post_prepared_transaction-balances rows_database hashed rows_laws buy_in prepared_buy_in
      (some "ann") first_rows {r = (buy_in_rows, buy_in_posted)} buy_in_fresh buy_in_posts "ann"

post_prepared_transaction-IsTaken_example :
    IsTaken rows_database hashed prepared_buy_in
      (buy_in_rows, buy_in_posted)
      buy_in
      prepared_buy_in
      (some "ann")
post_prepared_transaction-IsTaken_example =
    post_prepared_transaction-IsTaken rows_database hashed rows_references rows_hold buy_in
      prepared_buy_in (some "ann") first_rows {r = (buy_in_rows, buy_in_posted)} buy_in
      prepared_buy_in (some "ann") buy_in_posts refl

ann-ne-table : ◌≢◌ {A = String} "ann" "table-1"
ann-ne-table h = let e = ap code (append-head "a" "t" "nn" "able-1" "" "" h) in absurd (omega arith)

post_transaction_in_database-transfer_example :
    post_transaction_in_database rows_database hashed buy_in (some "ann") first_rows ≡ (
      if ltb_ℤ (rows_sum "ann" first_rows.entries) (pos 50)
      then err insufficient_funds
      else ok (transferred rows_database hashed "buy-in-1" "ann" "table-1" 49 first_rows))
post_transaction_in_database-transfer_example =
    post_transaction_in_database-transfer rows_database hashed rows_laws "buy-in-1" "ann" "table-1"
      49 first_rows ann-ne-table (append-ne-nil "a" "nn" "") buy_in_fresh
