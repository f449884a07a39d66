-- ===== src/Api/Auth.antt =====
-- app/api/v1/auth.py: the routes of sessions. A route is a function of the fields of its request and of
-- the header `Authorization`. `validate_email` is pydantic's EmailStr: the address as it normalises it.
pub mod Logout
pub mod Me
use Prim.Native.String.{count as count_str}
use theclub_api.Prelude.{ℕ, String, Bool, not, ◌&&◌, leb, Option}
use theclub_api.Result.{Result, ok, err, request_invalid, or_raise, raise_if}
use theclub_api.Exec.{Exec, lift, pure, ◌>>=◌, ◌>>◌}
use theclub_api.Exec.Session.{Session, within}
use theclub_api.Domain.Fairness.{Bytes}
use theclub_api.Db.{Db, User, UserStatus}
use theclub_api.Config.{Settings}
use theclub_api.World.{World}
use theclub_api.World.Transactions.{begun}
use theclub_api.Services.Auth
use theclub_api.Services.Auth.{TokenPair}
use theclub_api.Api.Deps.{get_current_user}

pub record TokenResponse : Type 0 where
  pub access_token : String
  pub refresh_token : Bytes
  pub token_type : String

pub record UserResponse : Type 0 where
  pub id : ℕ
  pub email : String
  pub status : UserStatus
  pub created_at : ℕ

abbrev pub token_response : TokenPair → TokenResponse
token_response tokens = record {
  access_token = tokens.access_token;
  refresh_token = tokens.refresh_token;
  token_type = "bearer";
}

abbrev pub user_response : ℕ × User → UserResponse
user_response (id, user) = record {
  id = id;
  email = user.email;
  status = user.status;
  created_at = user.created_at;
}

module _ {A : Type 0} where
  abbrev pub end_session : Result A × Session Db → Result A × Db
  end_session (ok a, s) = (ok a, s.current)
  end_session (err e, s) = (err e, record s.committed { calls = s.current.calls })

  -- `get_session`: the session of a request, in a transaction that it ends
  unfoldable pub get_session : World → Exec (Session Db) A → Exec Db A
  get_session w handler db =
      end_session (handler (record { current = begun w db; committed = begun w db }))

-- `Field(min_length=…, max_length=…)` of a password
unfoldable pub is_password : ℕ → String → Bool
is_password min_length password =
    leb min_length (count_str password) && leb (count_str password) 128

module _ (w : World) (settings : Settings) (validate_email : String → Option String) where
  -- `register`
  unfoldable pub register_route : String → String → Exec Db TokenResponse
  register_route email password = do
    address ← lift (or_raise (validate_email email) request_invalid)
    lift (raise_if (not (is_password 8 password)) request_invalid)
    get_session w (do
      (_, tokens) ← within (Auth.register_user w settings address password)
      pure (token_response tokens))

  -- `login`
  unfoldable pub login_route : String → String → Exec Db TokenResponse
  login_route email password = do
    address ← lift (or_raise (validate_email email) request_invalid)
    lift (raise_if (not (is_password 1 password)) request_invalid)
    get_session w (do
      (_, tokens) ← within (Auth.login w settings address password)
      pure (token_response tokens))

module _ (w : World) (settings : Settings) where
  -- `refresh`
  unfoldable pub refresh_route : Bytes → Exec Db TokenResponse
  refresh_route refresh_token =
      get_session w (do
        tokens ← Auth.refresh_access_token w settings refresh_token
        pure (token_response tokens))

  -- `me`
  unfoldable pub me : Option String → Exec Db UserResponse
  me auth_header =
      get_session w
        (do user ← within (get_current_user w settings auth_header); pure (user_response user))

  -- `logout`
  unfoldable pub logout_route : Option String → Bytes → Exec Db (Unit {0})
  logout_route auth_header refresh_token = get_session w (do
    user ← within (get_current_user w settings auth_header)
    within (Auth.logout w settings user.0 refresh_token))
