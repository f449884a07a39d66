-- ===== src/Api/Asgi/Recovered.antt =====
-- What `UnhandledExceptionMiddleware` makes of the run of an application.
use theclub_api.Prelude.{
  ℕ, suc, ◌+◌, ◌≡◌, refl, ap, ◌∙◌, sym, arith, Bool, true, false, ◌||◌, Option, none, some, List,
  [], ◌∷◌, ◌++◌, Bool-cases, inl, inr, if◌then◌else◌,
}
use mathlib.Core.List.{append-nil}
use theclub_api.Result.{Error}
use theclub_api.Api.Errors.{internal_error}
use theclub_api.Api.Asgi.{
  response_start, response_body, exception, http, Scope, Run, returns, raises, sends, binds,
  sets_user, counts, logs, AsgiApp, Event, sent, bound, user_set, counted, logged, Server, Trace,
  before, perform, is_start, Raised,
}
use theclub_api.Api.Asgi.Unhandled.{Renderer, handle, guard, guarded, unhandled_exception}

-- A response was begun.
abbrev pub has_start : List Event → Bool
has_start [] = false
has_start (sent m answer ∷ es) = is_start m || has_start es
has_start (bound k v ∷ es) = has_start es
has_start (user_set u ∷ es) = has_start es
has_start (counted m p s ∷ es) = has_start es
has_start (logged line ∷ es) = has_start es

abbrev pub messages : List Event → ℕ
messages [] = 0
messages (sent m answer ∷ es) = suc (messages es)
messages (bound k v ∷ es) = messages es
messages (user_set u ∷ es) = messages es
messages (counted m p s ∷ es) = messages es
messages (logged line ∷ es) = messages es

abbrev pub then_trace : List Event → Trace → Trace
then_trace es t = (es ++ t.0, t.1)

module _ (renderer : Renderer) (server : Server) where
  -- How a run goes on once its application has ended.
  abbrev pub ending : ℕ → Bool → Option Raised → Trace
  ending n started none = ([], none)
  ending n started (some e) = perform server n (handle renderer started e)

  or_false : (a : Bool) → (a || false) ≡ a
  or_false true = refl
  or_false false = refl

  or_assoc : (a b c : Bool) → ((a || b) || c) ≡ (a || (b || c))
  or_assoc true b c = refl
  or_assoc false b c = refl

  guard-perform :
      (n : ℕ) (started : Bool) (run : Run)
      → perform server n (guard renderer started run)
        ≡ then_trace (perform server n run).0 (
            ending
              (n + messages (perform server n run).0)
              (started || has_start (perform server n run).0)
              (perform server n run).1)
  unfolding perform guard
  guard-perform n started returns = refl
  guard-perform n started (raises e) =
      ap (λ k. perform server k (handle renderer started e)) (omega arith)
      ∙ ap (λ b. perform server (n + 0) (handle renderer b e)) (sym (or_false started))
  guard-perform n started (sends m rest) =
      let answer = server n m in
      let t = perform server (suc n) (rest answer) in
      let next : suc n + messages t.0 ≡ n + suc (messages t.0) = omega arith in
      ap (before (sent m answer)) (
        guard-perform (suc n) (started || is_start m) (rest answer)
        ∙ ap (λ k. then_trace t.0 (ending k ((started || is_start m) || has_start t.0) t.1)) next
        ∙ ap (λ b. then_trace t.0 (ending (n + suc (messages t.0)) b t.1))
            (or_assoc started (is_start m) (has_start t.0)))
  guard-perform n started (binds k v rest) = ap (before (bound k v)) (guard-perform n started rest)
  guard-perform n started (sets_user u rest) =
      ap (before (user_set u)) (guard-perform n started rest)
  guard-perform n started (counts m p s rest) =
      ap (before (counted m p s)) (guard-perform n started rest)
  guard-perform n started (logs line rest) =
      ap (before (logged line)) (guard-perform n started rest)

  -- An HTTP application that raises an exception before it has begun a response is answered for: its
  -- events are followed by those of the response "internal error". In every other case, where it ends,
  -- is cancelled, or raises later, the run is its own.
  unhandled_exception-recovers :
      (app : AsgiApp) (scope : Scope)
      → scope.type_ ≡ http
      → let t = perform server 0 (app scope) in
        perform server 0 (unhandled_exception renderer app scope)
        ≡ then_trace t.0 (ending (0 + messages t.0) (has_start t.0) t.1)
  unfolding unhandled_exception
  unhandled_exception-recovers app scope is_http =
      ap (λ k. perform server 0 (guarded renderer k (app scope))) is_http
      ∙ guard-perform 0 false (app scope)

-- A server whose `send` raises nothing.
abbrev pub quiet : Server
quiet n m = none

-- Where an HTTP application raises an exception, and the server's `send` raises none, the exception goes
-- on if a response was begun; if not, the events are followed by the response "internal error" with
-- status 500, and no exception goes on.
pub unhandled_exception-internal_error :
    (renderer : Renderer) (app : AsgiApp) (scope : Scope) (e : Error) (events : List Event)
    → scope.type_ ≡ http
    → perform quiet 0 (app scope) ≡ (events, some (exception e))
    → perform quiet 0 (unhandled_exception renderer app scope) ≡ (
        if has_start events then (events, some (exception e)) else (
          events
              ++ sent (response_start 500 (renderer.headers_of internal_error)) none
                ∷ sent (response_body (renderer.body_of internal_error)) none
                ∷ [],
          none,
        ))
unfolding perform
unhandled_exception-internal_error renderer app scope e events is_http run =
    unhandled_exception-recovers renderer quiet app scope is_http
    ∙ ap
        (λ (t : Trace).
          then_trace t.0 (ending renderer quiet (0 + messages t.0) (has_start t.0) t.1))
        run
    ∙ elim (Bool-cases (has_start events)) [
      | inl begun ↦ rw begun (λ i. (append-nil events i, some (exception e)))
      | inr unbegun ↦ rw unbegun refl
    ]
