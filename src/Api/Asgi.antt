-- ===== src/Api/Asgi.antt =====
-- ASGI: what the middleware of app/api and the application under it do with a request. An application
-- is the tree of what it does next: it sends a message and goes on with the answer of `send`, which is
-- nothing or what `send` raised; it adds to the canonical line; or it ends.
pub mod RequestContext
pub mod BodySize
pub mod Correlated
pub mod Recovered
pub mod Unhandled
use theclub_api.Prelude.{ℕ, suc, String, Bool, true, false, Option, none, some, List, [], ◌∷◌}
use theclub_api.Result.{Error}
use theclub_api.Json.{Json, Dict}

pub data ScopeType : Type 0 where
  http websocket lifespan : ScopeType

abbrev pub Headers : Type 0
Headers = List (String × String)

pub record Scope : Type 0 where
  pub type_ : ScopeType
  pub method : String
  pub path : String
  pub headers : Headers

-- `http.response.start` with its status, `http.response.body`, and the messages of other types
pub data Message : Type 0 where
  response_start : ℕ → Headers → Message
  response_body : String → Message
  other_message : Json → Message

-- what a coroutine raises: an `Exception`, or CancelledError, which is none
pub data Raised : Type 0 where
  exception : Error → Raised
  cancelled : Raised

-- `binds` is `bind_canonical`, `sets_user` is `user_id_var.set`, `counts` a request in
-- `http_requests_total` by method, path and status, `logs` a canonical line.
pub data Run : Type 0 where
  returns : Run
  raises : Raised → Run
  sends : Message → (Option Raised → Run) → Run
  binds : String → Json → Run → Run
  sets_user : String → Run → Run
  counts : String → String → Option ℕ → Run → Run
  logs : Dict → Run → Run

abbrev pub AsgiApp : Type 0
AsgiApp = Scope → Run

abbrev pub Middleware : Type 0
Middleware = AsgiApp → AsgiApp

-- What is seen of a run: each message with the answer to it, and the rest in order.
pub data Event : Type 0 where
  sent : Message → Option Raised → Event
  bound : String → Json → Event
  user_set : String → Event
  counted : String → String → Option ℕ → Event
  logged : Dict → Event

-- The answer of the server's `send` to the n-th message.
abbrev pub Server : Type 0
Server = ℕ → Message → Option Raised

abbrev pub Trace : Type 0
Trace = List Event × Option Raised

abbrev pub before : Event → Trace → Trace
before e (es, end) = (e ∷ es, end)

unfoldable pub perform : Server → ℕ → Run → Trace
perform server n returns = ([], none)
perform server n (raises e) = ([], some e)
perform server n (sends m rest) =
    before (sent m (server n m)) (perform server (suc n) (rest (server n m)))
perform server n (binds k v rest) = before (bound k v) (perform server n rest)
perform server n (sets_user u rest) = before (user_set u) (perform server n rest)
perform server n (counts m p s rest) = before (counted m p s) (perform server n rest)
perform server n (logs line rest) = before (logged line) (perform server n rest)

abbrev pub is_start : Message → Bool
is_start (response_start status headers) = true
is_start (response_body body) = false
is_start (other_message m) = false

-- `raise` what `send` raised, else go on
abbrev pub unless_raised : Option Raised → Run → Run
unless_raised none rest = rest
unless_raised (some e) rest = raises e
