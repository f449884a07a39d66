-- ===== src/Api/Ws.antt =====
-- app/api/v1/ws.py: the handshake of GET /ws and the release of what it took. What the tasks `_sender`
-- and `_receiver` do between subscription and end is a parameter, `serve`.
pub mod Released
pub mod Heartbeat
pub mod SameUsers
use text.Mathlib.Text.{◌==◌ as str_eq}
use theclub_api.Prelude.{
  ℕ, String, Bool, true, false, not, Option, none, some, List, [], ◌∷◌, ◌++◌, if◌then◌else◌,
}
use theclub_api.Result.{Error, Result, ok, err, invalid_token, token_expired}
use theclub_api.Exec.{Exec, pure, raise, ◌>>=◌}
use theclub_api.Json.{Dict}
use theclub_api.Db.{Db, User}
use theclub_api.Config.{Settings}
use theclub_api.World.{World}
use theclub_api.Security.{decode_access_token}
use theclub_api.Repositories.Users.{get_by_id}
use theclub_api.Services.Auth.{is_suspended}
use theclub_api.Ws.Broadcaster.{InMemoryBroadcaster, subscribe, unsubscribe}
use theclub_api.Ws.Connections.{ConnectionRegistry, try_register, unregister}
use theclub_api.Ws.RateLimit.{WsConnectRateLimiter, allow}

abbrev pub close_unauthorized : ℕ
close_unauthorized = 4401

abbrev pub close_too_many_connections : ℕ
close_too_many_connections = 4429

-- the code of `close()`
abbrev pub close_normal : ℕ
close_normal = 1000

abbrev pub admitted : ℕ → Option User → Option ℕ
admitted user_id none = none
admitted user_id (some user) = if is_suspended user.status then none else some user_id

-- `except (InvalidTokenError, TokenExpiredError)`
unfoldable pub is_token_error : Error → Bool
is_token_error invalid_token = true
is_token_error token_expired = true
is_token_error _ = false

-- the user of the token
unfoldable pub identify : Result ℕ → Exec Db (Option ℕ)
identify (ok user_id) = do user ← get_by_id user_id; pure (admitted user_id user)
identify (err e) = if is_token_error e then pure none else raise e

-- `_authenticate`
unfoldable pub authenticate : World → Settings → Option String → Exec Db (Option ℕ)
authenticate w settings none = pure none
authenticate w settings (some token) = if str_eq token "" then pure none else λ db.
    identify
      (decode_access_token w (w.now db.calls) token settings.jwt_secret settings.jwt_algorithm
        settings.jwt_previous_secrets)
      db

-- What the endpoint reads and writes of `app.state`, and the closes that were sent, with their codes.
pub record Endpoint (S : Type 0) : Type 0 where
  pub db : Db
  pub registry : ConnectionRegistry
  pub broadcaster : InMemoryBroadcaster Dict
  pub redis : S
  pub closes : List (ℕ × ℕ)

-- One connection: its websocket, its query and address, the time, the queue that it will get, what
-- `accept()` does, and what happens while it is served.
pub record Connection : Type 0 where
  pub websocket : ℕ
  pub client_ip : String
  pub token : Option String
  pub time : ℕ
  pub queue : ℕ
  pub accept : Result (Unit {0})
  pub serve : Exec (InMemoryBroadcaster Dict) (Unit {0})

module _ {S : Type 0} (c : Connection) where
  abbrev pub close : ℕ → Endpoint S → Endpoint S
  close code app = record app { closes = app.closes ++ (c.websocket, code) ∷ [] }

  abbrev leave_queue :
      ℕ → Endpoint S → Result (Unit {0}) × InMemoryBroadcaster Dict → Result (Unit {0}) × Endpoint S
  leave_queue user_id app (r, b) = (r, record app { broadcaster = unsubscribe user_id c.queue b })

  -- the `try`: accept, then serve with a subscription, which ends however serving ends
  abbrev pub served : ℕ → Result (Unit {0}) → Exec (Endpoint S) (Unit {0})
  served user_id (err e) app = (err e, app)
  served user_id (ok _) app =
      leave_queue user_id app (c.serve (subscribe user_id c.queue app.broadcaster))

  -- the `finally`
  abbrev pub released : Result (Unit {0}) × Endpoint S → Result (Unit {0}) × Endpoint S
  released (r, app) =
      (r, close close_normal (record app { registry = unregister c.websocket app.registry }))

  abbrev pub admit : ℕ → Endpoint S → Bool × ConnectionRegistry → Result (Unit {0}) × Endpoint S
  admit user_id app (false, registry) =
      (ok tt, close close_too_many_connections (record app { registry = registry }))
  admit user_id app (true, registry) =
      released (served user_id c.accept (record app { registry = registry }))

  abbrev pub welcome : Endpoint S → Result (Option ℕ) × Db → Result (Unit {0}) × Endpoint S
  welcome app (err e, db) = (err e, record app { db = db })
  welcome app (ok none, db) = (ok tt, close close_unauthorized (record app { db = db }))
  welcome app (ok (some user_id), db) =
      admit user_id (record app { db = db }) (try_register c.websocket app.registry)

  abbrev pub limited : World → Settings → Endpoint S → Bool × S → Result (Unit {0}) × Endpoint S
  limited w settings app (false, redis) =
      (ok tt, close close_too_many_connections (record app { redis = redis }))
  limited w settings app (true, redis) =
      welcome (record app { redis = redis }) (authenticate w settings c.token app.db)

  -- `ws_endpoint`
  unfoldable pub ws_endpoint :
      World → Settings → WsConnectRateLimiter S → Exec (Endpoint S) (Unit {0})
  ws_endpoint w settings limiter app =
      limited w settings app (allow limiter c.client_ip c.time app.redis)
