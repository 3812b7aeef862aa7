-- ===== src/Store/Samples.antt =====
-- packages/db/src: tables that are lists, and a database on which the transactions run.
use porker_monorepo.Base.{
  Bool, List, Option, String, [], ap, filter, find, map, none, not, refl, some, ◌++◌, ◌∷◌,
}
use porker_monorepo.Ledger.Integers.{negsuc, pos, ℤ}
use porker_monorepo.Ledger.Samples.{Rows, rows_database, rows_laws, rows_references}
use porker_monorepo.Store.{Database, Tables}
use porker_monorepo.Store.Rows.{StoreLaws, TableLaws, updated}

abbrev upsert_row {ℓ} : {R : Type ℓ} → Option R → R → (R → R) → R
upsert_row none r f = r
upsert_row (some old) r f = f old

abbrev upsert_list {ℓ} : {R : Type ℓ} → Option R → (R → Bool) → R → (R → R) → List R → List R
upsert_list none p r f s = s ++ r ∷ []
upsert_list (some old) p r f s = map (updated p f) s

abbrev pub list_tables : Tables List
list_tables = record {
  find_first = λ p s. find p s;
  find_many = λ p s. filter p s;
  create = λ r s. s ++ r ∷ [];
  update = λ p f s. map (updated p f) s;
  upsert = λ p r f s. (upsert_row (find p s) r f, upsert_list (find p s) p r f s);
  delete = λ p s. filter (λ r. not (p r)) s;
}

abbrev pub list_laws : TableLaws list_tables
list_laws = record {
  rows = λ s. s;
  find_rows = λ p s. refl;
  many_rows = λ p s. refl;
  create_rows = λ r s. refl;
  update_rows = λ p f s. refl;
  upsert_new = λ p r f s e. (ap (λ o. upsert_row o r f) e, ap (λ o. upsert_list o p r f s) e);
  upsert_old = λ p r f s e. (ap (λ o. upsert_row o r f) e, ap (λ o. upsert_list o p r f s) e);
  delete_rows = λ p s. refl;
}

abbrev pub hashed : List (String × ℤ) → String
hashed es = "hash"

abbrev pub database : Database Rows List
database = record { ledger = rows_database; digest = hashed; tables = list_tables }

abbrev pub database_laws : StoreLaws database
database_laws = record { ledger = rows_laws; references = rows_references; tables = list_laws }

-- Ann has paid 80 chips into the escrow.
abbrev pub paid_rows : Rows
paid_rows = record {
  transactions =
      record { id = 0; reference = "deposit-1"; payload_hash = "hash"; entries = [] } ∷ [];
  entries =
      (0, record { account_id = "escrow:ann"; amount = pos 80 })
      ∷ (0, record { account_id = "cashier"; amount = negsuc 79 })
      ∷ [];
}
