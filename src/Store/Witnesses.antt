-- ===== src/Store/Witnesses.antt =====
-- The theorems about the transactions at a concrete database, and tests of the definitions.
use Prim.Native.Char.{code}
use Prim.Native.String
use porker_monorepo.Base.{
  ===_ne, List, Result, String, [], ap, append-head, append-ne-nil, arith, false, find, none, ok,
  refl, some, ◌++◌, ◌+◌, ◌===◌, ◌∷◌, ◌≡◌, ◌≢◌,
}
use porker_monorepo.Ledger.{
  LedgerEntryInput, PostedTransaction, normalize_entries, post_prepared_transaction,
  post_transaction_in_database, prepare_transaction,
}
use porker_monorepo.Ledger.Integers.{int_laws, negsuc, pos, ◌+ℤ◌, ◌-ℤ◌}
use porker_monorepo.Ledger.Samples.{Rows, posted_row, rows_sum, tagged}
use porker_monorepo.Store.{StoreError}
use porker_monorepo.Store.Samples.{database, database_laws, paid_rows}
use porker_monorepo.Store.Withdrawals.{
  Outcome, ReserveWithdrawalInput, Withdrawal, WithdrawalDraft, WithdrawalTables, completed,
  first_nonce, has_key, is_same_id, outcome_reference, released, reserve_in_database,
  reserve_unless_found, reserved_account, reserved_row, settled_row, settled_with,
  transition_in_database,
}
use porker_monorepo.Store.Withdrawals.Names.{escrow-ne-reserved}
use porker_monorepo.Store.Withdrawals.Once.{reserve_in_database-once}
use porker_monorepo.Store.Withdrawals.Refines.{SpecStep, Step, here, next, reserve, view}
use porker_monorepo.Store.Withdrawals.Reserve.{next_nonce_of, reserve_unless_found-nonce}
use porker_monorepo.Store.Withdrawals.Runs.{Run-IsBacked, Step-SpecStep, release_restores}
use porker_monorepo.Store.Withdrawals.Sound.{IsBacked, IsNew}
use porker_monorepo.Store.Withdrawals.Transition.{transition_in_database-settles}

abbrev books : WithdrawalTables Rows List
books = record { ledger = paid_rows; nonces = []; withdrawals = [] }

abbrev request : ReserveWithdrawalInput
request = record {
  user_id = "u1";
  wallet_address = "ann";
  chain_id = 1;
  escrow_address = "0xe";
  amount = pos 50;
  deadline = 900;
  idempotency_key = some "k1";
}

abbrev signed : WithdrawalDraft → Result StoreError String
signed draft = ok "0xsig"

abbrev reserved_ann : Withdrawal
reserved_ann = reserved_row request "w1" 0 "0xsig" 1

abbrev reserved_entries : List LedgerEntryInput
reserved_entries =
    record { account_id = "escrow:ann"; amount = negsuc 49 }
    ∷ record { account_id = "withdrawal-reserved:ann"; amount = pos 50 }
    ∷ []

abbrev reserved_books : WithdrawalTables Rows List
reserved_books = record {
  ledger = record {
    transactions = paid_rows.transactions ++ posted_row 1 "withdrawal-reserve:w1" "hash" ∷ [];
    entries = paid_rows.entries ++ tagged 1 reserved_entries;
  };
  nonces = first_nonce request ∷ [];
  withdrawals = reserved_ann ∷ [];
}

reserve_runs :
    reserve_in_database database request signed "w1" books ≡ ok (reserved_books, reserved_ann)
unfolding reserve_in_database post_transaction_in_database prepare_transaction
    post_prepared_transaction normalize_entries ◌+ℤ◌ ◌-ℤ◌ ◌===◌
reserve_runs = refl

reserve_fresh_runs :
    reserve_unless_found database none request signed "w1" books ≡ ok (reserved_books, reserved_ann)
unfolding reserve_unless_found post_transaction_in_database prepare_transaction
    post_prepared_transaction normalize_entries ◌+ℤ◌ ◌-ℤ◌ ◌===◌
reserve_fresh_runs = refl

cashier-ne-reserved : (w : String) → "cashier" ≢ reserved_account w
cashier-ne-reserved w h =
    let e = ap code (append-head "c" "w" "ashier" "ithdrawal-reserved:" "" (String.◌++◌ w "") h) in
    absurd (omega arith)

nothing_reserved : (wallet : String) → rows_sum (reserved_account wallet) paid_rows.entries ≡ pos 0
nothing_reserved wallet =
    let escrow : ("escrow:ann" === reserved_account wallet) ≡ false =
      ===_ne "escrow:ann" (reserved_account wallet) (escrow-ne-reserved "ann" wallet) in
    let cashier : ("cashier" === reserved_account wallet) ≡ false =
      ===_ne "cashier" (reserved_account wallet) (cashier-ne-reserved wallet) in
    rw (escrow, cashier) sums
  where
    sums : pos 0 +ℤ (pos 0 +ℤ pos 0) ≡ pos 0
    sums = omega int_laws

books-IsBacked : IsBacked database database_laws books
books-IsBacked = record {
  backed = λ wallet. nothing_reserved wallet;
  unique = λ id. omega arith;
  positive = tt;
  unsettled = λ id o {w} found open_yet. cc;
}

w1-IsNew : IsNew database database_laws "w1" books
unfolding ◌===◌
w1-IsNew = record { no_row = refl; not_reserved = refl; not_settled = λ o. unused_outcome o }
  where
    unused_outcome :
        (o : Outcome)
        → find
            (λ (t : PostedTransaction). t.reference === outcome_reference o "w1")
            paid_rows.transactions
          ≡ none
    unused_outcome completed = refl
    unused_outcome released = refl

first-Step : Step database database_laws books reserved_books
first-Step = reserve request signed "w1" reserved_ann refl w1-IsNew reserve_runs

Run-IsBacked_example : IsBacked database database_laws reserved_books
Run-IsBacked_example =
    Run-IsBacked database database_laws books reserved_books (next here first-Step) books-IsBacked

Step-SpecStep_example :
    SpecStep (view database database_laws books) (view database database_laws reserved_books)
Step-SpecStep_example =
    Step-SpecStep database database_laws books reserved_books first-Step books-IsBacked

reserve_unless_found-nonce_example :
    (reserved_ann.nonce ≡ next_nonce_of database database_laws request books)
    × (next_nonce_of database database_laws request reserved_books ≡ reserved_ann.nonce + 1)
reserve_unless_found-nonce_example =
    reserve_unless_found-nonce database database_laws request signed "w1" books
      {r = (reserved_books, reserved_ann)} reserve_fresh_runs

no_key : find (has_key "u1" "k1") (database_laws.tables.rows books.withdrawals) ≡ none
no_key = refl

reserve_in_database-once_example :
    reserve_in_database database request signed "w2" reserved_books
    ≡ ok (reserved_books, reserved_ann)
reserve_in_database-once_example =
    reserve_in_database-once database database_laws request "k1" signed signed "w1" "w2" books
      {r = (reserved_books, reserved_ann)} refl (append-ne-nil "k" "1" "") no_key reserve_runs

found_w1 : find (is_same_id "w1") reserved_books.withdrawals ≡ some reserved_ann
unfolding ◌===◌
found_w1 = refl

transition_in_database-settles_example :
    (r : WithdrawalTables Rows List) × (v : Withdrawal) × (transition_in_database database "w1"
        completed
        (some "0xtx")
        950
        reserved_books
      ≡ ok (r, some v))
    × (find (is_same_id "w1") r.withdrawals ≡ some v)
    × (v.status ≡ settled_with completed)
    × IsBacked database database_laws r
transition_in_database-settles_example =
    transition_in_database-settles database database_laws "w1" completed (some "0xtx") 950
      reserved_books {w = reserved_ann} found_w1 refl Run-IsBacked_example

abbrev released_books : WithdrawalTables Rows List
released_books = record reserved_books {
  ledger = record {
    transactions =
        (reserved_books.ledger).transactions ++ posted_row 2 "withdrawal-released:w1" "hash" ∷ [];
    entries =
        (reserved_books.ledger).entries
        ++ tagged 2 (
            record { account_id = "escrow:ann"; amount = pos 50 }
            ∷ record { account_id = "withdrawal-reserved:ann"; amount = negsuc 49 }
            ∷ []);
  };
  withdrawals = settled_row released none 2 950 reserved_ann ∷ [];
}

release_runs :
    transition_in_database database "w1" released none 950 reserved_books
    ≡ ok (released_books, some (settled_row released none 2 950 reserved_ann))
unfolding transition_in_database post_transaction_in_database prepare_transaction
    post_prepared_transaction normalize_entries ◌+ℤ◌ ◌-ℤ◌ ◌===◌
release_runs = refl

release_restores_example :
    rows_sum "escrow:ann" (released_books.ledger).entries ≡ rows_sum "escrow:ann" paid_rows.entries
release_restores_example =
    release_restores database database_laws request signed "w1" books (reserved_books, reserved_ann)
      none 950 (released_books, some (settled_row released none 2 950 reserved_ann)) refl w1-IsNew
      books-IsBacked reserve_fresh_runs release_runs "escrow:ann"
