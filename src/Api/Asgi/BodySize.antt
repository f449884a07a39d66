-- ===== src/Api/Asgi/BodySize.antt =====
-- app/api/middleware.py: `MaxBodySizeMiddleware`. `int()` of a header's bytes is a parameter.
use text.Mathlib.Text.{◌==◌ as str_eq}
use theclub_api.Prelude.{String, Option, none, some, [], ◌∷◌, ℤ, ltb_ℤ, if◌then◌else◌}
use theclub_api.Result.{value_error}
use theclub_api.Api.Asgi.{
  ScopeType, http, websocket, lifespan, Headers, response_start, response_body, Run, returns,
  raises, sends, exception, Middleware, unless_raised,
}

-- `dict(headers).get(name)`: of two headers of one name the last counts
unfoldable pub get_header : String → Headers → Option String
get_header name [] = none
get_header name ((k, v) ∷ rest) = elim (get_header name rest) [
  | some later ↦ some later
  | none ↦ if str_eq k name then some v else none
]

-- the two messages of the refusal
abbrev pub too_large : Run
too_large = sends (response_start 413 (("content-type", "application/json") ∷ [])) λ first.
    unless_raised first (
      sends (response_body "{\"detail\":\"request body too large\"}")
        λ second. unless_raised second returns)

module _ (parse_int : String → Option ℤ) (max_body_bytes : ℤ) where
  abbrev measured : Option ℤ → Run → Run
  measured none run = raises (exception value_error)
  measured (some content_length) run =
      if ltb_ℤ max_body_bytes content_length then too_large else run

  abbrev pub gate : Option String → Run → Run
  gate none run = run
  gate (some content_length) run = measured (parse_int content_length) run

  abbrev gated : ScopeType → Headers → Run → Run
  gated http headers run = gate (get_header "content-length" headers) run
  gated websocket headers run = run
  gated lifespan headers run = run

  -- `MaxBodySizeMiddleware.__call__`
  unfoldable pub max_body_size : Middleware
  max_body_size app scope = gated scope.type_ scope.headers (app scope)
