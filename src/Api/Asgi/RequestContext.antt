-- ===== src/Api/Asgi/RequestContext.antt =====
-- app/api/request_context.py: `RequestContextMiddleware`.
use theclub_api.Prelude.{ℕ, String, Option, none, some, [], ◌∷◌, ◌++◌, ℤ, pos}
use theclub_api.Json.{Json, null, number, text, Dict, empty, entry, set_key, merge}
use theclub_api.Api.Asgi.{
  ScopeType, http, websocket, lifespan, Scope, Message, response_start, response_body,
  other_message, Run, returns, raises, sends, binds, sets_user, counts, logs, Middleware,
}

-- the context variables of a request and the `status_code` of `__call__`
pub record Context : Type 0 where
  pub status_code : Option ℕ
  pub user_id : Option String
  pub fields : Dict

abbrev pub new_context : Context
new_context = record { status_code = none; user_id = none; fields = empty }

abbrev pub text_or_null : Option String → Json
text_or_null none = null
text_or_null (some s) = text s

abbrev pub number_or_null : Option ℕ → Json
number_or_null none = null
number_or_null (some n) = number (pos n)

abbrev pub type_name : ScopeType → String
type_name http = "http"
type_name websocket = "websocket"
type_name lifespan = "lifespan"

-- `send_wrapper`: the message that is passed on, and the status that is kept
unfoldable pub stamp : String → Message → Message
stamp request_id (response_start status headers) =
    response_start status (headers ++ ("X-Request-ID", request_id) ∷ [])
stamp request_id (response_body body) = response_body body
stamp request_id (other_message m) = other_message m

abbrev pub note : Message → Context → Context
note (response_start status headers) c = record c { status_code = some status }
note (response_body body) c = c
note (other_message m) c = c

-- `request_id` is `uuid4()` and `duration_ms` the time that `time.monotonic()` measures.
module _ (request_id : String) (duration_ms : ℤ) (scope : Scope) where
  -- `line`, before the fields of an HTTP request
  unfoldable pub base_line : Context → Dict
  base_line c =
      merge
        (entry "request_id" (text request_id) (
          entry "user_id" (text_or_null c.user_id) (
            entry "type" (text (type_name scope.type_))
              (entry "duration_ms" (number duration_ms) empty))))
        c.fields

  unfoldable pub http_line : Context → Dict
  http_line c =
      set_key "status_code" (number_or_null c.status_code)
        (set_key "path" (text scope.path) (set_key "method" (text scope.method) (base_line c)))

  -- the `finally` of an HTTP request and of a websocket
  abbrev pub finish_http : Context → Run → Run
  finish_http c end = counts scope.method scope.path c.status_code (logs (http_line c) end)

  abbrev pub finish_websocket : Context → Run → Run
  finish_websocket c end = logs (base_line c) end

module _ (wrap : Message → Message) (track : Message → Context → Context)
    (finish : Context → Run → Run) where
  -- the `try`: the application runs with `wrap` around `send` and the context variables set
  unfoldable pub follow : Context → Run → Run
  follow c returns = finish c returns
  follow c (raises e) = finish c (raises e)
  follow c (sends m rest) = sends (wrap m) (λ answer. follow (track m c) (rest answer))
  follow c (binds k v rest) = follow (record c { fields = set_key k v c.fields }) rest
  follow c (sets_user u rest) = follow (record c { user_id = some u }) rest
  follow c (counts m p s rest) = counts m p s (follow c rest)
  follow c (logs line rest) = logs line (follow c rest)

abbrev pub in_context : String → ℤ → Scope → ScopeType → Run → Run
in_context request_id duration_ms scope http run =
    follow (stamp request_id) note (finish_http request_id duration_ms scope) new_context run
in_context request_id duration_ms scope websocket run =
    follow (λ m. m) (λ m c. c) (finish_websocket request_id duration_ms scope) new_context run
in_context request_id duration_ms scope lifespan run = run

-- `RequestContextMiddleware.__call__`
unfoldable pub request_context : String → ℤ → Middleware
request_context request_id duration_ms app scope =
    in_context request_id duration_ms scope scope.type_ (app scope)
