-- ===== src/Store/Game.antt =====
-- packages/db/src/game-server.ts: the rows of its tables, and the records that it passes.
pub mod Seats
pub mod Hands
pub mod Commits
pub mod Releases
pub mod Sessions
pub mod Actions
pub mod Numbering
pub mod Claims
pub mod SeatSums
pub mod Stacks
pub mod Leaving
use porker_monorepo.Base.{
  Bool, List, Option, Result, String, [], err, false, if◌then◌else◌, ltb, none, ok, some, ℕ, ◌===◌,
  ◌∷◌,
}
use porker_monorepo.Ledger.Integers.{ℤ}
use porker_monorepo.Store.{
  Caught, FailureCode, StoreError, database_error, is_p2034, other_code, rethrow_unless, thrown,
}

pub record User : Type 0 where
  pub id : String
  pub display_name : String
  pub wallet_address : Option String

pub record Room : Type 0 where
  pub id : String
  pub name : String
  pub status : String
  pub visibility : String
  pub game_type : String
  pub seat_count : ℕ
  pub small_blind : ℤ
  pub big_blind : ℤ
  pub min_buy_in : ℤ
  pub max_buy_in : ℤ
  pub action_timeout_seconds : ℕ

pub record Seat : Type 0 where
  pub id : String
  pub room_id : String
  pub user_id : Option String
  pub seat_number : ℕ
  pub status : String
  pub stack : ℤ
  pub buy_in : ℤ

pub record Hand : Type 0 where
  pub id : String
  pub room_id : String
  pub hand_number : ℕ
  pub status : String
  pub action_deadline_at : Option ℕ
  pub completed_at : Option ℕ

-- `J` stands for the JSON values that the module stores and does not look into.
pub record HandEvent (J : Type 0) : Type 0 where
  pub hand_id : String
  pub sequence : ℕ
  pub version : ℕ
  pub type : String
  pub payload : J
  pub action_id : Option String
  pub actor_user_id : Option String
  pub action_room_id : Option String
  pub action_payload_hash : Option String
  pub ack : Option J

-- The rows are in the order of their `id`, which the database counts up.
pub record GameSnapshot (J : Type 0) : Type 0 where
  pub room_id : String
  pub hand_id : String
  pub version : ℕ
  pub state : J

pub record TableOperation (J : Type 0) : Type 0 where
  pub action_id : String
  pub room_id : String
  pub user_id : String
  pub type : String
  pub hand_id : Option String
  pub payload_hash : String
  pub ack : J

pub record DisconnectGrace : Type 0 where
  pub room_id : String
  pub user_id : String
  pub deadline_at : ℕ

pub record AuditLog : Type 0 where
  pub action : String
  pub target_type : String
  pub target_id : String
  pub ciphertext : String

pub record WalletNonce : Type 0 where
  pub id : String
  pub address : String
  pub nonce_hash : String
  pub expires_at : ℕ
  pub consumed_at : Option ℕ
  pub user_id : Option String

pub record Session : Type 0 where
  pub user_id : String
  pub token_hash : String
  pub expires_at : ℕ
  pub revoked_at : Option ℕ

pub record GameTables (L : Type 0) (T : Type 0 → Type 0) (J : Type 0) : Type 0 where
  pub ledger : L
  pub users : T User
  pub rooms : T Room
  pub seats : T Seat
  pub hands : T Hand
  pub events : T (HandEvent J)
  pub snapshots : T (GameSnapshot J)
  pub operations : T (TableOperation J)
  pub graces : T DisconnectGrace
  pub audits : T AuditLog
  pub nonces : T WalletNonce
  pub sessions : T Session

pub record PublicRoomRecord : Type 0 where
  pub id : String
  pub name : String
  pub seat_count : ℕ
  pub small_blind : ℤ
  pub big_blind : ℤ
  pub min_buy_in : ℤ
  pub max_buy_in : ℤ
  pub action_timeout_seconds : ℕ
  pub status : String
  pub occupied_seats : ℕ

pub record TableSeatRecord : Type 0 where
  pub user_id : String
  pub display_name : String
  pub seat_number : ℕ
  pub stack : ℤ

pub record DurableTableSnapshot (J : Type 0) : Type 0 where
  pub room_id : String
  pub hand_id : String
  pub version : ℕ
  pub state : J
  pub action_deadline_at : Option ℕ
  pub hand_status : String
  pub hand_room_id : String

pub record DurableHandEvent (J : Type 0) : Type 0 where
  pub sequence : ℕ
  pub version : ℕ
  pub type : String
  pub payload : J
  pub action_id : Option String

pub record DurableActionAck (J : Type 0) : Type 0 where
  pub room_id : String
  pub hand_id : String
  pub action_id : String
  pub actor_user_id : String
  pub payload_hash : String
  pub ack : J
  pub committed : Bool

pub record SeatStack : Type 0 where
  pub user_id : String
  pub stack : ℤ

-- `a?.b === text`.
abbrev pub is_text : Option String → String → Bool
is_text none t = false
is_text (some s) t = s === t

-- The row with the largest value of a column: `orderBy: desc` with `findFirst`.
abbrev pub last_by {ℓ} : {R : Type ℓ} → (R → ℕ) → List R → Option R
last_by key [] = none
last_by key (r ∷ rs) = elim (last_by key rs) [
  | none ↦ some r
  | some best ↦ if ltb (key best) (key r) then some r else some best
]

-- The last row, for a column that the database counts up.
abbrev pub last {ℓ} : {R : Type ℓ} → List R → Option R
last [] = none
last (r ∷ []) = some r
last (r ∷ q ∷ rs) = last (q ∷ rs)

-- `findUniqueOrThrow`, and `update` of a row by its key.
abbrev pub or_not_found {ℓ} : {A : Type ℓ} → Option A → Result StoreError A
or_not_found none = err (database_error other_code)
or_not_found (some a) = ok a

abbrev pub or_thrown {ℓ} : {A : Type ℓ} → Option A → String → Result StoreError A
or_thrown none message = err (thrown message)
or_thrown (some a) message = ok a

-- The `catch` of the transactions of this module.
abbrev pub retry_p2034 : {A : Type 0} → ℕ → ℕ → FailureCode → Caught A
retry_p2034 attempt left code = rethrow_unless (is_p2034 code) left code

abbrev pub exhausted : String
exhausted = "SERIALIZABLE_TRANSACTION_RETRIES_EXHAUSTED"
