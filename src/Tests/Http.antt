-- ===== src/Tests/Http.antt =====
-- The middleware, the readiness checks and the start of the application.
use theclub_api.Prelude.{
  ℕ, ◌≡◌, ◌↔◌, refl, String, Option, none, some, [], ◌∷◌, ◌++◌, pos, ℤ, Bool, true, false,
  if◌then◌else◌,
}
use package.text.Mathlib.Text.{◌==◌ as str_eq}
use theclub_api.Result.{Result, ok, err, value_error, key_error}
use theclub_api.Exec.{◌>>=◌}
use theclub_api.Json.{Dict, text, number, null, get_key, set_key, merge}
use theclub_api.Api.Health.{ReadinessCheck, hangs, takes, returned, register, ready}
use theclub_api.Api.Health.Ready.{Responds}
use theclub_api.Api.Asgi.{
  http, Scope, response_start, response_body, AsgiApp, raises, sends, binds, sent, bound, counted,
  logged, Server, perform, exception, cancelled,
}
use theclub_api.Api.Asgi.RequestContext.{
  request_context, stamp, follow, base_line, http_line, number_or_null,
}
use theclub_api.Api.Asgi.BodySize.{get_header, max_body_size}
use theclub_api.Api.Asgi.Unhandled.{Renderer}
use theclub_api.Api.Asgi.Correlated.{passed, last_status, request_context-Correlated}
use theclub_api.Main.{
  Outside, Application, Failures, build_middleware_stack, app_middleware, create_app, startup,
}
use theclub_api.Main.Started.{startup-ready}
use theclub_api.Main.Answered.{stack-too_large}
use theclub_api.Api.Asgi.Recovered.{quiet, has_start, unhandled_exception-internal_error}
use theclub_api.Api.Asgi.Unhandled.{unhandled_exception}
use theclub_api.Tests.Data.{settings}

abbrev renderer : Renderer
renderer = record {
  headers_of = λ r. ("content-type", "application/json") ∷ [];
  body_of = λ r. "{\"detail\":\"internal error\"}";
}

abbrev parse_int : String → Option ℤ
parse_int s = if str_eq s "2000000" then some (pos 2000000) else none

abbrev outside : Outside
outside = record {
  request_id = "r-1";
  duration_ms = pos 12;
  parse_int = parse_int;
  renderer = renderer;
  slowapi = λ app. app;
  cors = λ options app. app;
}

-- a route that names its user for the line and then fails
abbrev broken : AsgiApp
broken scope = binds "user_id" (text "seven") (raises (exception key_error))

abbrev get_rounds : Scope
get_rounds = record { type_ = http; method = "GET"; path = "/api/v1/roulette/rounds"; headers = [] }

-- a server whose client has gone: no message can be sent
abbrev gone : Server
gone n m = some (exception key_error)

abbrev greeting : AsgiApp
greeting scope =
    sends (response_start 200 []) (λ first. binds "bet_count" (number (pos 2)) (raises cancelled))

request_context-Correlated_example :
    let t = perform (λ i m. gone i (stamp "r-1" m)) 0 (greeting get_rounds) in
    let status = last_status none t.0 in
    (line : Dict) × (perform gone 0 (request_context "r-1" (pos 12) greeting get_rounds) ≡ (
      passed "r-1" t.0 ++ counted "GET" "/api/v1/roulette/rounds" status ∷ logged line ∷ [],
      t.1,
    ))
    × (get_key "method" line ≡ some (text "GET"))
    × (get_key "path" line ≡ some (text "/api/v1/roulette/rounds"))
    × (get_key "status_code" line ≡ some (number_or_null status))
request_context-Correlated_example =
    request_context-Correlated "r-1" (pos 12) get_rounds gone greeting refl

broken_run :
    perform quiet 0 (broken get_rounds)
    ≡ (bound "user_id" (text "seven") ∷ [], some (exception key_error))
unfolding perform
broken_run = refl

unhandled_exception-internal_error_example :
    perform quiet 0 (unhandled_exception renderer broken get_rounds) ≡ (
      if has_start (bound "user_id" (text "seven") ∷ [])
      then (bound "user_id" (text "seven") ∷ [], some (exception key_error))
      else (
        bound "user_id" (text "seven") ∷ []
            ++ sent (response_start 500 (("content-type", "application/json") ∷ [])) none
              ∷ sent (response_body "{\"detail\":\"internal error\"}") none
              ∷ [],
        none,
      ))
unhandled_exception-internal_error_example =
    unhandled_exception-internal_error renderer broken get_rounds key_error
      (bound "user_id" (text "seven") ∷ []) refl broken_run

abbrev large_request : Scope
large_request = record get_rounds { headers = ("content-length", "2000000") ∷ [] }

large_length : get_header "content-length" large_request.headers ≡ some "2000000"
unfolding get_header
large_length = refl

stack-too_large_example :
    (line : Dict) × (perform quiet 0
        (build_middleware_stack (app_middleware outside settings) broken large_request)
      ≡ (
        sent
              (response_start 413
                (("content-type", "application/json") ∷ ("X-Request-ID", "r-1") ∷ []))
              none
            ∷ sent (response_body "{\"detail\":\"request body too large\"}") none
            ∷ counted "GET" "/api/v1/roulette/rounds" (some 413)
            ∷ logged line
            ∷ [],
        none,
      ))
    × (get_key "status_code" line ≡ some (number (pos 413)))
stack-too_large_example =
    stack-too_large outside settings broken large_request refl "2000000" (pos 2000000) large_length
      refl refl

-- A Content-Length that is no number is answered by no middleware of the application: the exception
-- goes out to the server, no header has the id of the request, and the line has no status.
bad_length :
    (line : Dict) × (perform quiet 0 (
        build_middleware_stack
          (app_middleware outside settings)
          broken
          (record get_rounds { headers = ("content-length", "ten") ∷ [] }))
      ≡ (
        counted "GET" "/api/v1/roulette/rounds" none ∷ logged line ∷ [],
        some (exception value_error),
      ))
    × (get_key "status_code" line ≡ some null)
unfolding perform build_middleware_stack app_middleware request_context max_body_size follow
    base_line http_line get_header merge set_key get_key
bad_length = (_, refl, refl)

-- the environment is whether Kafka answers
abbrev check_at : ℕ → ReadinessCheck Bool
check_at time env = takes time returned

abbrev check_broker : ReadinessCheck Bool
check_broker true = takes 3000 returned
check_broker false = hangs

abbrev no_failures : Failures
no_failures = record {
  start = none;
  close_relay = none;
  close_purge = none;
  stop = none;
  aclose = none;
  dispose = none;
}

abbrev app_or : Application Bool → Result (Application Bool) → Application Bool
app_or app (ok a) = a
app_or app (err e) = app

abbrev blank : Application Bool
blank = record {
  docs_url = none;
  openapi_url = none;
  readiness = [];
  ws_connections = record { max_connections = 0; connections = []; active = pos 0; total = 0 };
  ws_connections_limit = 0;
  user_middleware = [];
  engine_open = false;
  redis_open = false;
  producer_running = false;
  relay_running = false;
  purge_running = false;
}

abbrev app : Application Bool
app = app_or blank (create_app outside settings (check_at 1000) (check_at 2000))

app_created : create_app outside settings (check_at 1000) (check_at 2000) ≡ ok app
unfolding create_app register
app_created = refl

abbrev started : Application Bool
started = (startup no_failures check_broker app).1

app_started : startup no_failures check_broker app ≡ (ok tt, started)
unfolding startup create_app register ◌>>=◌
app_started = refl

startup-ready_example : ((ready false started.readiness).status_code ≡ 200) ↔ (
    Responds (check_at 1000 false) × Responds (check_at 2000 false) × Responds (check_broker false))
startup-ready_example =
    startup-ready outside settings (check_at 1000) (check_at 2000) check_broker no_failures app
      started app_created app_started false
