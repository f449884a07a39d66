-- ===== src/Api/Asgi/Correlated.antt =====
-- What the outside sees of a request under `RequestContextMiddleware`.
use theclub_api.Prelude.{
  ℕ, suc, ◌≡◌, refl, ap, ◌∙◌, String, Option, none, some, List, [], ◌∷◌, ◌++◌, ℤ,
}
use theclub_api.Json.{text, Dict, set_key, get_key, get_key-set_key}
use theclub_api.Api.Asgi.{
  http, Scope, Message, response_start, response_body, other_message, Run, returns, raises, sends,
  binds, sets_user, counts, logs, AsgiApp, Event, sent, bound, user_set, counted, logged, Server,
  before, perform,
}
use theclub_api.Api.Asgi.RequestContext.{
  Context, new_context, number_or_null, stamp, note, http_line, finish_http, follow, in_context,
  request_context,
}

-- The messages are stamped, and what is bound stays inside.
abbrev pub passed : String → List Event → List Event
passed id [] = []
passed id (sent m answer ∷ es) = sent (stamp id m) answer ∷ passed id es
passed id (bound k v ∷ es) = passed id es
passed id (user_set u ∷ es) = passed id es
passed id (counted m p s ∷ es) = counted m p s ∷ passed id es
passed id (logged line ∷ es) = logged line ∷ passed id es

-- The status of the last response that was begun.
abbrev pub status_or : Option ℕ → Message → Option ℕ
status_or status (response_start started headers) = some started
status_or status (response_body body) = status
status_or status (other_message m) = status

abbrev pub last_status : Option ℕ → List Event → Option ℕ
last_status status [] = status
last_status status (sent m answer ∷ es) = last_status (status_or status m) es
last_status status (bound k v ∷ es) = last_status status es
last_status status (user_set u ∷ es) = last_status status es
last_status status (counted m p s ∷ es) = last_status status es
last_status status (logged line ∷ es) = last_status status es

-- The context variables after some events.
abbrev pub context_after : Context → List Event → Context
context_after c [] = c
context_after c (sent m answer ∷ es) = context_after (note m c) es
context_after c (bound k v ∷ es) = context_after (record c { fields = set_key k v c.fields }) es
context_after c (user_set u ∷ es) = context_after (record c { user_id = some u }) es
context_after c (counted m p s ∷ es) = context_after c es
context_after c (logged line ∷ es) = context_after c es

note-status : (m : Message) (c : Context) → (note m c).status_code ≡ status_or c.status_code m
note-status (response_start status headers) c = refl
note-status (response_body body) c = refl
note-status (other_message m) c = refl

context_after-status :
    (c : Context) (es : List Event)
    → (context_after c es).status_code ≡ last_status c.status_code es
context_after-status c [] = refl
context_after-status c (sent m answer ∷ es) =
    context_after-status (note m c) es ∙ ap (λ s. last_status s es) (note-status m c)
context_after-status c (bound k v ∷ es) =
    context_after-status (record c { fields = set_key k v c.fields }) es
context_after-status c (user_set u ∷ es) = context_after-status (record c { user_id = some u }) es
context_after-status c (counted m p s ∷ es) = context_after-status c es
context_after-status c (logged line ∷ es) = context_after-status c es

module _ (id : String) (duration_ms : ℤ) (scope : Scope) (server : Server) where
  -- the two events of the `finally`
  abbrev pub finals : Context → List Event
  finals c =
      counted scope.method scope.path c.status_code ∷ logged (http_line id duration_ms scope c) ∷ []

  follow-perform :
      (n : ℕ) (c : Context) (run : Run)
      → perform server n (follow (stamp id) note (finish_http id duration_ms scope) c run) ≡ (
        passed id (perform (λ i m. server i (stamp id m)) n run).0
            ++ finals (context_after c (perform (λ i m. server i (stamp id m)) n run).0),
        (perform (λ i m. server i (stamp id m)) n run).1,
      )
  unfolding perform follow
  follow-perform n c returns = refl
  follow-perform n c (raises e) = refl
  follow-perform n c (sends m rest) =
      let answer = server n (stamp id m) in
      ap (before (sent (stamp id m) answer)) (follow-perform (suc n) (note m c) (rest answer))
  follow-perform n c (binds k v rest) =
      follow-perform n (record c { fields = set_key k v c.fields }) rest
  follow-perform n c (sets_user u rest) = follow-perform n (record c { user_id = some u }) rest
  follow-perform n c (counts m p s rest) = ap (before (counted m p s)) (follow-perform n c rest)
  follow-perform n c (logs line rest) = ap (before (logged line)) (follow-perform n c rest)

  -- Whatever an application does with an HTTP request, and whichever messages the server refuses,
  -- `RequestContextMiddleware` passes on its messages in order, with the request's id in the headers of
  -- each response that is begun, ends as it ends, and after that counts one request and logs one line,
  -- which have the method and path of the request and the status of the last response that was begun.
  pub request_context-Correlated :
      (app : AsgiApp)
      → scope.type_ ≡ http
      → let t = perform (λ i m. server i (stamp id m)) 0 (app scope) in
        let status = last_status none t.0 in
        (line : Dict) × (perform server 0 (request_context id duration_ms app scope)
          ≡ (passed id t.0 ++ counted scope.method scope.path status ∷ logged line ∷ [], t.1))
        × (get_key "method" line ≡ some (text scope.method))
        × (get_key "path" line ≡ some (text scope.path))
        × (get_key "status_code" line ≡ some (number_or_null status))
  unfolding request_context http_line
  request_context-Correlated app is_http =
      let t = perform (λ i m. server i (stamp id m)) 0 (app scope) in
      let c = context_after new_context t.0 in
      let same = context_after-status new_context t.0 in
      (
        http_line id duration_ms scope c,
        ap (λ k. perform server 0 (in_context id duration_ms scope k (app scope))) is_http
            ∙ follow-perform 0 new_context (app scope)
            ∙ ap
                (λ s. (
                  passed id t.0
                      ++ counted scope.method scope.path s
                        ∷ logged (http_line id duration_ms scope c)
                        ∷ [],
                  t.1,
                ))
                same,
        simp get_key-set_key,
        simp get_key-set_key,
        simp get_key-set_key (ap (λ s. some (number_or_null s)) same),
      )
