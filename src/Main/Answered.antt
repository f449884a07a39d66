-- ===== src/Main/Answered.antt =====
-- What a client gets from the whole stack of middleware.
use theclub_api.Prelude.{
  ◌≡◌, refl, ap, ◌∙◌, String, true, Option, none, some, List, [], ◌∷◌, ◌++◌, ℤ, pos, ltb_ℤ,
}
use theclub_api.Json.{Dict, number, get_key}
use theclub_api.Config.{Settings}
use theclub_api.Api.Asgi.{
  http, Scope, response_start, response_body, AsgiApp, Event, sent, counted, logged, Trace, perform,
  Raised,
}
use theclub_api.Api.Asgi.RequestContext.{request_context, stamp, number_or_null}
use theclub_api.Api.Asgi.BodySize.{get_header, max_body_size}
use theclub_api.Api.Asgi.Unhandled.{unhandled_exception}
use theclub_api.Api.Asgi.Correlated.{passed, last_status, request_context-Correlated}
use theclub_api.Api.Asgi.Recovered.{quiet}
use theclub_api.Main.{Outside, build_middleware_stack, app_middleware, cors_options}

abbrev limited : Outside → Settings → AsgiApp → AsgiApp
limited out settings = max_body_size out.parse_int settings.max_request_body_bytes

module _ (out : Outside) (settings : Settings) (router : AsgiApp) (scope : Scope)
    (is_http : scope.type_ ≡ http) where
  -- What the client gets where the run under `RequestContextMiddleware` is known.
  stack-events :
      (app : AsgiApp) (es : List Event) (end : Option Raised)
      → perform quiet 0 (app scope) ≡ (es, end)
      → (line : Dict) × (perform quiet 0 (request_context out.request_id out.duration_ms app scope)
          ≡ (
            passed out.request_id es
                ++ counted scope.method scope.path (last_status none es) ∷ logged line ∷ [],
            end,
          ))
        × (get_key "status_code" line ≡ some (number_or_null (last_status none es)))
  stack-events app es end h =
      let (line, run, _, _, status) =
        request_context-Correlated out.request_id out.duration_ms scope quiet app is_http in
      (
        line,
        run
            ∙ ap
                (λ (t : Trace). (
                  passed out.request_id t.0
                      ++ counted scope.method scope.path (last_status none t.0) ∷ logged line ∷ [],
                  t.1,
                ))
                h,
        status ∙ ap (λ (t : Trace). some (number_or_null (last_status none t.0))) h,
      )

  -- A request whose Content-Length is above the limit is refused, whatever it asks for: the answer has
  -- the status 413 and the id of the request in its headers, it is counted and logged with that status,
  -- and no part of the application under the limit does anything.
  pub stack-too_large :
      (header : String) (content_length : ℤ)
      → get_header "content-length" scope.headers ≡ some header
      → out.parse_int header ≡ some content_length
      → ltb_ℤ settings.max_request_body_bytes content_length ≡ true
      → (line : Dict) × (perform quiet 0
            (build_middleware_stack (app_middleware out settings) router scope)
          ≡ (
            sent
                  (response_start 413
                    (("content-type", "application/json") ∷ ("X-Request-ID", out.request_id) ∷ []))
                  none
                ∷ sent (response_body "{\"detail\":\"request body too large\"}") none
                ∷ counted scope.method scope.path (some 413)
                ∷ logged line
                ∷ [],
            none,
          ))
        × (get_key "status_code" line ≡ some (number (pos 413)))
  unfolding build_middleware_stack app_middleware max_body_size perform stamp
  stack-too_large header content_length given parsed above =
      stack-events
        (limited out settings (
          out.cors (cors_options settings) (out.slowapi (unhandled_exception out.renderer router))))
        (sent (response_start 413 (("content-type", "application/json") ∷ [])) none
          ∷ sent (response_body "{\"detail\":\"request body too large\"}") none
          ∷ [])
        none (rw (is_http, given, parsed, above) refl)
