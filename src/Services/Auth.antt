-- ===== src/Services/Auth.antt =====
-- app/services/auth.py: register, log in, refresh a session and log out.
pub mod Issued
pub mod Registered
pub mod Refresh
use theclub_api.Prelude.{
  ℕ, ◌+◌, ◌*◌, ◌==◌, not, pos, String, Bool, true, false, Option, none, some, any, ltb,
  if◌then◌else◌,
}
use theclub_api.Result.{
  Result, ok, err, raise_if, email_exists, invalid_credentials, user_suspended, refresh_reused,
  token_expired, invalid_token, integrity_error, or_raise,
}
use theclub_api.Exec.{Exec, lift, raise, pure, ◌>>=◌, ◌>>◌}
use theclub_api.Exec.Session.{Session, within, commit}
use theclub_api.Domain.Fairness.{Bytes}
use theclub_api.Config.{Settings}
use theclub_api.Db.{Db, User, UserStatus, Wallet, RefreshToken}
use theclub_api.Rows.{Table, insert_row}
use theclub_api.World.{World, new_uuid, read_clock, new_secret}
use theclub_api.Repositories.SeedPairs.{create_active}
use theclub_api.Repositories
use theclub_api.Repositories.Users
use theclub_api.Repositories.RefreshTokens
use theclub_api.Repositories.RefreshTokens.{get_by_hash, revoke, revoke_family}
use theclub_api.Security.{
  hash_password, verify_password, create_access_token, generate_refresh_token, hash_refresh_token,
}

pub record TokenPair : Type 0 where
  pub access_token : String
  pub refresh_token : Bytes

abbrev is_some {ℓ} : {A : Type ℓ} → Option A → Bool
is_some none = false
is_some (some x) = true

abbrev pub is_suspended : UserStatus → Bool
is_suspended UserStatus.active = false
is_suspended UserStatus.suspended = true

abbrev pub put_wallet : Result (Table Wallet) → Exec Db (Unit {0})
put_wallet (ok rows) db = (ok tt, record db { wallets = rows })
put_wallet (err e) db = (err e, db)

module _ (w : World) (settings : Settings) where
  -- `_issue_tokens`
  unfoldable pub issue_tokens : ℕ → ℕ → Exec Db TokenPair
  issue_tokens user_id family_id = do
    access_token ←
        create_access_token w user_id settings.jwt_secret settings.jwt_algorithm
          settings.access_token_ttl_seconds
    raw_refresh_token ← generate_refresh_token w
    now ← read_clock w
    RefreshTokens.create w user_id family_id (hash_refresh_token w raw_refresh_token)
        (now + settings.refresh_token_ttl_seconds * 1000000)
    pure (record { access_token = access_token; refresh_token = raw_refresh_token })

  -- `session.add(Wallet(user_id=user.id, balance_minor=0))`
  abbrev pub add_wallet : ℕ → Exec Db (Unit {0})
  add_wallet user_id = do
    id ← new_uuid w
    λ db.
        if any (λ row. row.1.user_id == user_id) db.wallets
        then (err integrity_error, db)
        else put_wallet
            (insert_row id (record { user_id = user_id; balance_minor = pos 0; currency = "EUR" })
              db.wallets)
            db

  -- `register_user`
  unfoldable pub register_user : String → String → Exec Db ((ℕ × User) × TokenPair)
  register_user email password = do
    taken ← Users.get_by_email w email
    lift (raise_if (is_some taken) email_exists)
    password_hash ← hash_password w password
    user ← Users.create w email password_hash
    server_seed ← new_secret w
    client_seed ← new_secret w
    add_wallet user.0
    create_active w user.0 server_seed (w.sha256_hex server_seed) client_seed
    family_id ← new_uuid w
    tokens ← issue_tokens user.0 family_id
    pure (user, tokens)

  -- `login`
  unfoldable pub login : String → String → Exec Db ((ℕ × User) × TokenPair)
  login email password = do
    found ← Users.get_by_email w email
    user ← lift (or_raise found invalid_credentials)
    verified ← lift (verify_password w password user.1.password_hash)
    lift (raise_if (not verified) invalid_credentials)
    lift (raise_if (is_suspended user.1.status) user_suspended)
    family_id ← new_uuid w
    tokens ← issue_tokens user.0 family_id
    pure (user, tokens)

  -- the rest of `refresh_access_token`, once the token was found and the clock read
  unfoldable pub rotate : ℕ × RefreshToken → ℕ → Option ℕ → Exec (Session Db) TokenPair
  rotate stored now (some revoked_at) = do
    within (revoke_family stored.1.family_id now)
    commit
    raise refresh_reused
  rotate stored now none = do
    within (lift (raise_if (ltb stored.1.expires_at now) token_expired))
    within (revoke stored.0 now)
    within (issue_tokens stored.1.user_id stored.1.family_id)

  -- `refresh_access_token`
  unfoldable pub refresh_access_token : Bytes → Exec (Session Db) TokenPair
  refresh_access_token raw_refresh_token = do
    found ← within (get_by_hash (hash_refresh_token w raw_refresh_token))
    stored ← within (lift (or_raise found invalid_token))
    now ← within (read_clock w)
    rotate stored now stored.1.revoked_at

  abbrev end_session : ℕ → Option (ℕ × RefreshToken) → Exec Db (Unit {0})
  end_session user_id none = pure tt
  end_session user_id (some stored) =
      if not (stored.1.user_id == user_id)
      then pure tt
      else (do now ← read_clock w; revoke_family stored.1.family_id now)

  -- `logout`
  unfoldable pub logout : ℕ → Bytes → Exec Db (Unit {0})
  logout user_id raw_refresh_token = do
    stored ← get_by_hash (hash_refresh_token w raw_refresh_token)
    end_session user_id stored
