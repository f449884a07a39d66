-- ===== src/Api/Deps.antt =====
-- app/api/deps.py: the authenticated user of a request.
use text.Mathlib.Text.{starts_with}
use Prim.Native.String.{slice, len}
use theclub_api.Prelude.{ℕ, String, Option, none, some, if◌then◌else◌}
use theclub_api.Result.{Result, ok, err, invalid_token, user_suspended, or_raise, raise_if}
use theclub_api.Exec.{Exec, gets, lift, pure, ◌>>=◌, ◌>>◌}
use theclub_api.Db.{Db, User}
use theclub_api.Config.{Settings}
use theclub_api.World.{World}
use theclub_api.Services.Auth.{is_suspended}
use theclub_api.Security.{decode_access_token}
use theclub_api.Repositories.Users.{get_by_id}

-- the token of the header `Authorization`
unfoldable pub bearer : Option String → Result String
bearer none = err invalid_token
bearer (some header) =
    if starts_with header "Bearer "
    then ok (slice header (len "Bearer ") (len header))
    else err invalid_token

-- `get_current_user`, with the user's id
unfoldable pub get_current_user : World → Settings → Option String → Exec Db (ℕ × User)
get_current_user w settings auth_header = do
  token ← lift (bearer auth_header)
  now ← gets (λ db. w.now db.calls)
  user_id ← lift (
      decode_access_token w now token settings.jwt_secret settings.jwt_algorithm
        settings.jwt_previous_secrets)
  found ← get_by_id user_id
  user ← lift (or_raise found invalid_token)
  lift (raise_if (is_suspended user.status) user_suspended)
  pure (user_id, user)
