-- ===== src/Tests/Sessions.antt =====
-- Registration, the user of a token, and logout.
use Prim.Native.String.{◌++◌ as append_str}
use theclub_api.Prelude.{ℕ, ◌+◌, ◌≡◌, refl, String, Option, some, none, [], ◌∷◌}
use theclub_api.Result.{ok, err, refresh_reused}
use theclub_api.Exec.{◌>>=◌}
use theclub_api.Rows.{insert_row, set_id, update_where}
use theclub_api.Db.{Db, User, UserStatus, RefreshToken}
use theclub_api.World.{World, payload}
use theclub_api.World.Transactions.{begun}
use theclub_api.Security.{hash_refresh_token, decode_access_token, try_secrets}
use theclub_api.Repositories.SeedPairs.{
  insert_active, create_active, get_active_by_user_id, reveal_and_deactivate,
}
use theclub_api.Repositories.Users
use theclub_api.Repositories.Users.{get_by_id}
use theclub_api.Repositories.RefreshTokens
use theclub_api.Repositories.RefreshTokens.{get_by_hash, revoke_family}
use theclub_api.Services.Auth.{logout}
use theclub_api.Services.Auth.Refresh.{IsEnded}
use theclub_api.Api.Deps.{bearer, get_current_user}
use theclub_api.Api.Auth.{TokenResponse, get_session, register_route, refresh_route, logout_route}
use theclub_api.Api.Auth.Logout.{logout_route-ends}
use theclub_api.Api.Fairness.{fairness_current, fairness_rotate}
use theclub_api.Services.Fairness.{get_current_seed, rotate_seed, hex}
use theclub_api.Tests.Data.{settings, db}
use theclub_api.Tests.Api.{unary_world, strokes, size}

-- a token is its subject
abbrev world : World
world = record unary_world {
  uuid4 = λ n. 10 + n;
  jwt_encode = λ c s a. c.sub;
  jwt_decode = λ now t s a. payload (some t);
}

abbrev tokens : TokenResponse
tokens = record { access_token = strokes 12; refresh_token = 9 ∷ []; token_type = "bearer" }

abbrev registered : Db
registered = (register_route world settings (λ s. some s) "a@b.c" "password" db).1

abbrev time : ℕ
time = world.now (begun world registered).calls

-- user 3 with two live tokens of one family
abbrev header : Option String
header = some "Bearer xxx"

abbrev user : User
user = record {
  email = "a@b.c";
  password_hash = "password";
  status = UserStatus.active;
  created_at = 0;
}

abbrev token : ℕ → RefreshToken
token n = record {
  user_id = 3;
  family_id = 30;
  token_hash = b'h' ∷ n ∷ [];
  expires_at = 9000000;
  revoked_at = none;
}

abbrev signed_in : Db
signed_in = record db {
  users = (3, user) ∷ [];
  refresh_tokens = (20, token 9) ∷ (21, token 8) ∷ [];
}

abbrev logged_out : Db
logged_out = (logout_route world settings header (9 ∷ []) signed_in).1

logout_run : logout_route world settings header (9 ∷ []) signed_in ≡ (ok tt, logged_out)
unfolding logout_route logout get_session get_current_user bearer get_by_id get_by_hash
    decode_access_token try_secrets revoke_family update_where size ◌>>=◌
logout_run = refl

current_user :
    get_current_user world settings header (begun world signed_in)
    ≡ (ok (3, user), begun world signed_in)
unfolding get_current_user bearer get_by_id decode_access_token try_secrets size ◌>>=◌
current_user = refl

token_found :
    get_by_hash (hash_refresh_token world (9 ∷ [])) signed_in ≡ (ok (some (20, token 9)), signed_in)
unfolding get_by_hash
token_found = refl

logout_route-ends_example :
    IsEnded 30 logged_out
    × ((refresh_route world settings (9 ∷ []) logged_out).0 ≡ err refresh_reused)
logout_route-ends_example =
    logout_route-ends world settings header (9 ∷ []) 3 user (20, token 9) signed_in logged_out
      current_user token_found logout_run refl

-- user 7 reads the seeds and rotates them
abbrev seeded : Db
seeded = record db { users = (7, user) ∷ [] }

current_run :
    (fairness_current world settings (some "Bearer xxxxxxx") seeded).0
    ≡ ok (record { server_seed_hash = b'h' ∷ 1 ∷ []; client_seed = 2 ∷ []; nonce = 4 })
unfolding fairness_current get_session get_current_user bearer get_by_id decode_access_token
    try_secrets size get_current_seed get_active_by_user_id ◌>>=◌
current_run = refl

rotate_run :
    (fairness_rotate world settings (some "Bearer xxxxxxx") seeded).0
    ≡ ok (record {
      revealed_server_seed = b'0' ∷ b'1' ∷ [];
      revealed_server_seed_hash = b'h' ∷ 1 ∷ [];
      new_server_seed_hash = b'h' ∷ 2 ∷ [];
      new_client_seed = 3 ∷ [];
    })
unfolding fairness_rotate get_session get_current_user bearer get_by_id decode_access_token
    try_secrets size rotate_seed get_active_by_user_id reveal_and_deactivate create_active
    insert_active insert_row set_id hex ◌>>=◌
rotate_run = refl
