-- ===== src/World.antt =====
-- What the program takes from outside: the clock, random ids and bytes, and cryptography. Call number
-- n of the clock returns `now n`, and so on; `server_now` is the clock of PostgreSQL; `hmac` is HMAC-SHA256 and `sha256_hex` the hexadecimal
-- SHA-256; `lower` is the folding of a CITEXT column. `spin_fuel` bounds the rounds of rejection sampling that the model follows.
pub mod Transactions
use theclub_api.Prelude.{String, Option, ℕ, suc}
use theclub_api.Result.{ok}
use theclub_api.Exec.{Exec}
use theclub_api.Domain.Fairness.{Bytes}
use theclub_api.Db.{Db}

-- What argon2's `verify` does: it returns, raises VerifyMismatchError, or raises another error.
pub data Verified : Type 0 where
  matches mismatch unverifiable : Verified

-- The payload of an access token.
pub record Claims : Type 0 where
  pub sub : String
  pub iat : ℕ
  pub exp : ℕ

-- What `jwt.decode` does at a time: it returns a payload, whose claim `sub` may be missing or no text, raises
-- ExpiredSignatureError, or raises another InvalidTokenError.
pub data Decoded : Type 0 where
  payload : Option String → Decoded
  expired invalid : Decoded

pub record World : Type 0 where
  pub uuid4 : ℕ → ℕ
  pub now : ℕ → ℕ
  pub server_now : ℕ → ℕ
  pub token_bytes : ℕ → Bytes
  pub hmac : Bytes → Bytes → Bytes
  pub sha256_hex : Bytes → Bytes
  pub spin_fuel : ℕ
  pub lower : String → String
  pub argon2_hash : ℕ → String → String
  pub argon2_verify : String → String → Verified
  pub jwt_encode : Claims → String → String → String
  pub jwt_decode : ℕ → String → String → String → Decoded
  pub parse_uuid : String → Option ℕ
  pub show_uuid : ℕ → String

abbrev pub tick : Db → Db
tick db = record db { calls = suc db.calls }

module _ (w : World) where
  -- `uuid.uuid4()`, `datetime.now(UTC)`, `secrets.token_bytes` and `secrets.token_hex`
  abbrev pub new_uuid : Exec Db ℕ
  new_uuid db = (ok (w.uuid4 db.calls), tick db)

  abbrev pub read_clock : Exec Db ℕ
  read_clock db = (ok (w.now db.calls), tick db)

  abbrev pub new_secret : Exec Db Bytes
  new_secret db = (ok (w.token_bytes db.calls), tick db)
