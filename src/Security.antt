-- ===== src/Security.antt =====
-- app/infra/security.py: passwords, access tokens and refresh tokens. argon2, PyJWT and `uuid` are
-- the parameters of World.
pub mod Rotation
use theclub_api.Prelude.{ℕ, ◌+◌, ◌*◌, String, Bool, true, false, Option, none, some, List, [], ◌∷◌}
use theclub_api.Result
use theclub_api.Result.{Result, ok, err, argon2_error, token_expired, invalid_token, or_raise}
use theclub_api.Exec.{Exec, pure, ◌>>=◌}
use theclub_api.Domain.Fairness.{Bytes}
use theclub_api.Db.{Db}
use theclub_api.World.{
  World, Claims, Verified, Decoded, payload, expired, invalid, matches, mismatch, unverifiable,
  tick, read_clock, new_secret,
}

module _ (w : World) where
  -- `hash_password`: a new salt at each call
  abbrev pub hash_password : String → Exec Db String
  hash_password password db = (ok (w.argon2_hash db.calls password), tick db)

  abbrev verdict : Verified → Result Bool
  verdict matches = ok true
  verdict mismatch = ok false
  verdict unverifiable = err argon2_error

  -- `verify_password`
  unfoldable pub verify_password : String → String → Result Bool
  verify_password password password_hash = verdict (w.argon2_verify password_hash password)

  -- `create_access_token`
  unfoldable pub create_access_token : ℕ → String → String → ℕ → Exec Db String
  create_access_token user_id secret algorithm ttl_seconds = do
    now ← read_clock w
    pure (
        w.jwt_encode
          (record { sub = w.show_uuid user_id; iat = now; exp = now + ttl_seconds * 1000000 })
          secret algorithm)

  abbrev pub answer_or : Decoded → Result (Option String) → Result (Option String)
  answer_or (payload sub) rest = ok sub
  answer_or expired rest = err token_expired
  answer_or invalid rest = rest

  -- the loop over the secrets: the payload of the first that the token does not fail on
  unfoldable pub try_secrets : ℕ → String → String → List String → Result (Option String)
  try_secrets now token algorithm [] = err invalid_token
  try_secrets now token algorithm (secret ∷ secrets) =
      answer_or (w.jwt_decode now token secret algorithm) (try_secrets now token algorithm secrets)

  abbrev pub user_of : Option String → Result ℕ
  user_of none = err invalid_token
  user_of (some sub) = or_raise (w.parse_uuid sub) invalid_token

  -- `decode_access_token`, at the time that PyJWT reads
  unfoldable pub decode_access_token : ℕ → String → String → String → List String → Result ℕ
  decode_access_token now token secret algorithm previous_secrets =
      Result.◌>>=◌ (try_secrets now token algorithm (secret ∷ previous_secrets)) user_of

  -- `generate_refresh_token` and `hash_refresh_token`
  abbrev pub generate_refresh_token : Exec Db Bytes
  generate_refresh_token = new_secret w

  abbrev pub hash_refresh_token : Bytes → Bytes
  hash_refresh_token token = w.sha256_hex token
