-- ===== src/Api/Asgi/Unhandled.antt =====
-- app/api/errors.py: `UnhandledExceptionMiddleware`. How Starlette writes a JSONResponse is a parameter.
use theclub_api.Prelude.{Bool, false, ◌||◌, String, if◌then◌else◌}
use theclub_api.Api.Errors.{JsonResponse, internal_error}
use theclub_api.Api.Asgi.{
  ScopeType, http, websocket, lifespan, Headers, response_start, response_body, Run, returns,
  raises, sends, binds, sets_user, counts, logs, exception, cancelled, Raised, Middleware, is_start,
  unless_raised,
}

-- the headers and the body of a response
pub record Renderer : Type 0 where
  pub headers_of : JsonResponse → Headers
  pub body_of : JsonResponse → String

module _ (renderer : Renderer) where
  -- `await response(scope, receive, send)`
  abbrev pub send_response : JsonResponse → Run
  send_response response =
      sends (response_start response.status_code (renderer.headers_of response)) λ first.
        unless_raised first
          (sends (response_body (renderer.body_of response)) λ second. unless_raised second returns)

  -- the `except`
  abbrev pub handle : Bool → Raised → Run
  handle response_started cancelled = raises cancelled
  handle response_started (exception e) =
      if response_started then raises (exception e) else send_response internal_error

  -- the `try`, with `response_started` as `send_wrapper` sets it, before it sends
  unfoldable pub guard : Bool → Run → Run
  guard started returns = returns
  guard started (raises e) = handle started e
  guard started (sends m rest) = sends m (λ answer. guard (started || is_start m) (rest answer))
  guard started (binds k v rest) = binds k v (guard started rest)
  guard started (sets_user u rest) = sets_user u (guard started rest)
  guard started (counts m p s rest) = counts m p s (guard started rest)
  guard started (logs line rest) = logs line (guard started rest)

  abbrev pub guarded : ScopeType → Run → Run
  guarded http run = guard false run
  guarded websocket run = run
  guarded lifespan run = run

  -- `UnhandledExceptionMiddleware.__call__`
  unfoldable pub unhandled_exception : Middleware
  unhandled_exception app scope = guarded scope.type_ (app scope)
