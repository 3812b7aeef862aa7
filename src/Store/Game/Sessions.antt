-- ===== src/Store/Game/Sessions.antt =====
-- packages/db/src/game-server.ts and withdrawal.ts: wallet nonces, guests, sessions and the grace of
-- a disconnected player.
use porker_monorepo.Base.{
  Bool, Option, Result, String, [], err, false, is_some, length, ltb, none, not, ok, some, template,
  ℕ, ◌&&◌, ◌===◌, ◌==◌, ◌>>=◌, ◌>>◌, ◌∷◌,
}
use porker_monorepo.Ledger.{transfer_of}
use porker_monorepo.Ledger.Integers.{is_zero, pos, ℤ, ◌-ℤ◌}
use porker_monorepo.Store.{
  Database, FailureCode, StoreError, attempts, post_in_database, require, thrown,
}
use porker_monorepo.Store.Game.{
  DisconnectGrace, GameTables, Session, User, WalletNonce, exhausted, is_text, retry_p2034,
}
use porker_monorepo.Store.Game.Seats.{points_account, text_or_empty}

pub record LoginInput : Type 0 where
  pub address : String
  pub nonce_hash : String
  pub now : ℕ
  pub token_hash : String
  pub session_expires_at : ℕ

pub record WalletLoginResult : Type 0 where
  pub user_id : String
  pub wallet_address : String

pub record GuestInput : Type 0 where
  pub display_name : String
  pub token_hash : String
  pub expires_at : ℕ
  pub grant_amount : ℤ

pub record ActiveGuestSession : Type 0 where
  pub user_id : String
  pub display_name : String

abbrev pub guest_grant_amount : ℤ
guest_grant_amount = pos 10000

abbrev pub new_session : String → String → ℕ → Session
new_session user token expires_at = record {
  user_id = user;
  token_hash = token;
  expires_at = expires_at;
  revoked_at = none;
}

abbrev pub is_wallet_of : String → User → Bool
is_wallet_of address user = is_text user.wallet_address address

abbrev pub wallet_user : String → String → User
wallet_user id address = record {
  id = id;
  display_name = template ("wallet:" ∷ address ∷ []);
  wallet_address = some address;
}

abbrev pub guest_user : String → String → User
guest_user id name = record { id = id; display_name = name; wallet_address = none }

abbrev pub unchanged {ℓ} : {A : Type ℓ} → A → A
unchanged a = a

-- `consumedAt: null, expiresAt: { gt: now }`.
abbrev pub is_open_nonce : String → ℕ → WalletNonce → Bool
is_open_nonce id now n = n.id === id && not (is_some n.consumed_at) && ltb now n.expires_at

abbrev pub consume : ℕ → WalletNonce → WalletNonce
consume now n = record n { consumed_at = some now }

abbrev pub owned_by : String → WalletNonce → WalletNonce
owned_by user n = record n { user_id = some user }

-- `revokedAt: null, expiresAt: { gt: now }`.
abbrev pub is_live_session : String → ℕ → Session → Bool
is_live_session token now session =
    session.token_hash === token && not (is_some session.revoked_at) && ltb now session.expires_at

abbrev pub is_grace_of : String → String → DisconnectGrace → Bool
is_grace_of room user g = g.room_id === room && g.user_id === user

abbrev pub guest_session : Session → Option User → Option ActiveGuestSession
guest_session session none = none
guest_session session (some user) =
    some (record { user_id = session.user_id; display_name = user.display_name })

abbrev pub has_wallet : Option User → Bool
has_wallet none = false
has_wallet (some user) = is_some user.wallet_address

module _ {L : Type 0} {T : Type 0 → Type 0} {J : Type 0} (d : Database L T) where
  unfoldable pub create_wallet_nonce :
      String → String → String → ℕ → GameTables L T J → GameTables L T J × ℕ
  create_wallet_nonce id address nonce_hash expires_at s = (
    record s {
      nonces =
          d.tables.create
            (record {
              id = id;
              address = address;
              nonce_hash = nonce_hash;
              expires_at = expires_at;
              consumed_at = none;
              user_id = none;
            })
            s.nonces;
    },
    expires_at,
  )

  -- What the login writes, once its nonce has passed the checks.
  abbrev pub logged_in :
      LoginInput → String → WalletNonce → GameTables L T J → GameTables L T J × WalletLoginResult
  logged_in input new_id nonce s =
      let upserted =
        d.tables.upsert (is_wallet_of input.address) (wallet_user new_id input.address) unchanged
          s.users in
      let used = d.tables.update (is_open_nonce nonce.id input.now) (consume input.now) s.nonces in
      (
        record s {
          users = upserted.1;
          nonces = d.tables.update (λ n. n.id === nonce.id) (owned_by (upserted.0).id) used;
          sessions =
              d.tables.create
                (new_session (upserted.0).id input.token_hash input.session_expires_at) s.sessions;
        },
        record {
          user_id = (upserted.0).id;
          wallet_address = text_or_empty (upserted.0).wallet_address;
        },
      )

  -- `consumed.count !== 1`: the rows that the update meets.
  unfoldable pub consume_and_log_in :
      Option WalletNonce
      → LoginInput
      → String
      → GameTables L T J
      → Result StoreError (GameTables L T J × WalletLoginResult)
  consume_and_log_in none input new_id s = err (thrown "NONCE_INVALID")
  consume_and_log_in (some nonce) input new_id s = do
    require (nonce.address === input.address) "NONCE_INVALID"
    require (not (is_some nonce.consumed_at)) "NONCE_CONSUMED"
    require (ltb input.now nonce.expires_at) "NONCE_EXPIRED"
    require (length (d.tables.find_many (is_open_nonce nonce.id input.now) s.nonces) == 1)
        "NONCE_CONSUMED"
    ok (logged_in input new_id nonce s)

  unfoldable pub login_in_database :
      LoginInput
      → String
      → GameTables L T J
      → Result StoreError (GameTables L T J × WalletLoginResult)
  unfolding consume_and_log_in
  login_in_database input new_id s =
      consume_and_log_in (d.tables.find_first (λ n. n.nonce_hash === input.nonce_hash) s.nonces)
        input new_id s

  unfoldable pub consume_wallet_nonce_and_create_session :
      (ℕ → Option FailureCode)
      → (ℕ → GameTables L T J)
      → (ℕ → String)
      → LoginInput
      → Result StoreError (GameTables L T J × WalletLoginResult)
  unfolding login_in_database
  consume_wallet_nonce_and_create_session failure seen new_id input =
      attempts exhausted failure
        (λ attempt. login_in_database input (new_id attempt) (seen attempt)) retry_p2034 5 1

  -- `include: { user: true }`, with the user that the foreign key keeps.
  unfoldable pub find_active_guest_session :
      String → ℕ → GameTables L T J → Option ActiveGuestSession
  find_active_guest_session token now s =
      elim (d.tables.find_first (is_live_session token now) s.sessions) [
        | none ↦ none
        | some session ↦
            guest_session session (d.tables.find_first (λ u. u.id === session.user_id) s.users)
      ]

  -- withdrawal.ts: a session of a user with a wallet.
  unfoldable pub find_active_wallet_session : String → ℕ → GameTables L T J → Option Session
  find_active_wallet_session token now s =
      d.tables.find_first
        (λ session.
          is_live_session token now session
          && has_wallet (d.tables.find_first (λ u. u.id === session.user_id) s.users))
        s.sessions

  unfoldable pub create_guest_in_database :
      GuestInput → String → GameTables L T J → Result StoreError (GameTables L T J × User)
  create_guest_in_database input id s = do
    let user = guest_user id input.display_name
    require (is_zero (input.grant_amount -ℤ guest_grant_amount)) "INVALID_GUEST_GRANT_AMOUNT"
    posted ←
        post_in_database d
          (transfer_of d.ledger d.digest (template ("guest-grant:" ∷ id ∷ [])) "points:treasury"
            (points_account id) input.grant_amount)
          none s.ledger
    ok (
      record s {
        ledger = posted.0;
        users = d.tables.create user s.users;
        sessions = d.tables.create (new_session id input.token_hash input.expires_at) s.sessions;
      },
      user,
    )

  unfoldable pub create_guest_with_grant :
      (ℕ → Option FailureCode)
      → (ℕ → GameTables L T J)
      → (ℕ → String)
      → GuestInput
      → Result StoreError (GameTables L T J × User)
  unfolding create_guest_in_database
  create_guest_with_grant failure seen new_id input =
      attempts exhausted failure
        (λ attempt. create_guest_in_database input (new_id attempt) (seen attempt)) retry_p2034 5 1

  unfoldable pub set_disconnect_grace : String → String → ℕ → GameTables L T J → GameTables L T J
  set_disconnect_grace room user deadline_at s =
      let upserted =
        d.tables.upsert (is_grace_of room user)
          (record { room_id = room; user_id = user; deadline_at = deadline_at })
          (λ g. record g { deadline_at = deadline_at }) s.graces in
      record s { graces = upserted.1 }

  unfoldable pub clear_disconnect_grace : String → String → GameTables L T J → GameTables L T J
  clear_disconnect_grace room user s = record s {
    graces = d.tables.delete (is_grace_of room user) s.graces;
  }

  unfoldable pub find_disconnect_grace : String → String → GameTables L T J → Option DisconnectGrace
  find_disconnect_grace room user s = d.tables.find_first (is_grace_of room user) s.graces
