-- ===== src/Main.antt =====
-- app/main.py: the application, its middleware, its start and its shutdown. `slowapi` and `cors` are the
-- middleware of other packages; the three checks are what their clients answer in an environment `E`.
pub mod Answered
pub mod Started
use theclub_api.Prelude.{
  ℕ, String, Bool, true, false, Option, none, some, List, [], ◌∷◌, ℤ, pos, if◌then◌else◌,
}
use theclub_api.Result
use theclub_api.Result.{Error, Result, ok, err}
use theclub_api.Exec.{Exec, ◌>>=◌, ◌>>◌}
use theclub_api.Config.{Settings, is_production}
use theclub_api.Ws.Connections.{ConnectionRegistry, close_all}
use theclub_api.Api.Health.{ReadinessCheck, ReadinessRegistry, register}
use theclub_api.Api.Asgi.{AsgiApp, Middleware}
use theclub_api.Api.Asgi.RequestContext.{request_context}
use theclub_api.Api.Asgi.BodySize.{max_body_size}
use theclub_api.Api.Asgi.Unhandled.{Renderer, unhandled_exception}

-- the arguments of `CORSMiddleware`
pub record CorsOptions : Type 0 where
  pub allow_origins : List String
  pub allow_credentials : Bool
  pub allow_methods : List String
  pub allow_headers : List String

-- What the middleware takes from outside for one request: its id, its duration and `int()`.
pub record Outside : Type 0 where
  pub request_id : String
  pub duration_ms : ℤ
  pub parse_int : String → Option ℤ
  pub renderer : Renderer
  pub slowapi : Middleware
  pub cors : CorsOptions → Middleware

-- `app`, and which of its long-lived resources are open
pub record Application (E : Type 0) : Type 0 where
  pub docs_url : Option String
  pub openapi_url : Option String
  pub readiness : ReadinessRegistry E
  pub ws_connections : ConnectionRegistry
  pub ws_connections_limit : ℕ
  pub user_middleware : List Middleware
  pub engine_open : Bool
  pub redis_open : Bool
  pub producer_running : Bool
  pub relay_running : Bool
  pub purge_running : Bool

abbrev pub published : Settings → String → Option String
published settings url = if is_production settings then none else some url

-- `add_middleware`, which inserts at the start, and Starlette's stack: the first is the outermost
abbrev pub add_middleware : Middleware → List Middleware → List Middleware
add_middleware m user_middleware = m ∷ user_middleware

unfoldable pub build_middleware_stack : List Middleware → AsgiApp → AsgiApp
build_middleware_stack [] router = router
build_middleware_stack (m ∷ ms) router = m (build_middleware_stack ms router)

abbrev pub cors_options : Settings → CorsOptions
cors_options settings = record {
  allow_origins = settings.cors_origins;
  allow_credentials = true;
  allow_methods = "GET" ∷ "POST" ∷ [];
  allow_headers = "Authorization" ∷ "Content-Type" ∷ "Idempotency-Key" ∷ [];
}

-- the five `add_middleware` calls of `create_app`
unfoldable pub app_middleware : Outside → Settings → List Middleware
app_middleware out settings = add_middleware (request_context out.request_id out.duration_ms) (
    add_middleware (max_body_size out.parse_int settings.max_request_body_bytes) (
      add_middleware (out.cors (cors_options settings))
        (add_middleware out.slowapi (add_middleware (unhandled_exception out.renderer) []))))

module _ {E : Type 0} where
  -- `create_app`
  unfoldable pub create_app :
      Outside → Settings → ReadinessCheck E → ReadinessCheck E → Result (Application E)
  create_app out settings check_database check_redis =
      Result.◌>>=◌ (register "database" check_database []) λ with_database.
        Result.◌>>=◌ (register "redis" check_redis with_database) λ readiness. ok (record {
          docs_url = published settings "/docs";
          openapi_url = published settings "/openapi.json";
          readiness = readiness;
          ws_connections = record {
            max_connections = settings.ws_max_connections;
            connections = [];
            active = pos 0;
            total = 0;
          };
          ws_connections_limit = settings.ws_max_connections;
          user_middleware = app_middleware out settings;
          engine_open = true;
          redis_open = true;
          producer_running = false;
          relay_running = false;
          purge_running = false;
        })

  -- an awaited call that may raise; what it does to the application is done if it returned
  abbrev pub await :
      Option Error → (Application E → Application E) → Exec (Application E) (Unit {0})
  await none effect app = (ok tt, effect app)
  await (some e) effect app = (err e, app)

  abbrev pub change : (Application E → Application E) → Exec (Application E) (Unit {0})
  change effect app = (ok tt, effect app)

  abbrev pub add_check :
      Application E → Result (ReadinessRegistry E) → Result (Unit {0}) × Application E
  add_check app (err e) = (err e, app)
  add_check app (ok readiness) = (ok tt, record app { readiness = readiness })

-- What the calls of the lifespan raise.
pub record Failures : Type 0 where
  pub start : Option Error
  pub close_relay : Option Error
  pub close_purge : Option Error
  pub stop : Option Error
  pub aclose : Option Error
  pub dispose : Option Error

module _ {E : Type 0} (failures : Failures) where
  -- `lifespan`, up to its `yield`
  unfoldable pub startup : ReadinessCheck E → Exec (Application E) (Unit {0})
  startup check_kafka = do
    await failures.start (λ app. record app { producer_running = true })
    λ app. add_check app (register "kafka" check_kafka app.readiness)
    change (λ app. record app { relay_running = true; purge_running = true })

  -- `lifespan`, after its `yield`; `close_all` suppresses what its closes raise
  unfoldable pub shutdown : Exec (Application E) (Unit {0})
  shutdown = do
    change (λ app. record app { ws_connections = (close_all app.ws_connections).1 })
    await failures.close_relay (λ app. record app { relay_running = false })
    await failures.close_purge (λ app. record app { purge_running = false })
    await failures.stop (λ app. record app { producer_running = false })
    await failures.aclose (λ app. record app { redis_open = false })
    await failures.dispose (λ app. record app { engine_open = false })
