-- ===== src/Api/Ws/Released.antt =====
-- What a connection leaves behind in the registry.
use theclub_api.Prelude.{
  ℕ, ◌≡◌, refl, ap, ◌∙◌, arith, Bool, true, false, ◌==◌, Bool-cases, inl, inr, any, length, leb,
  Option, none, some, List, pos, ◌+ℤ◌, ◌-ℤ◌, int_laws, ℤ,
}
use theclub_api.Result.{Result, ok, err}
use theclub_api.Db.{Db}
use theclub_api.Config.{Settings}
use theclub_api.World.{World}
use theclub_api.Ws.Connections.{ConnectionRegistry, try_register, unregister}
use theclub_api.Ws.Connections.Limit.{discard_absent}
use theclub_api.Ws.RateLimit.{WsConnectRateLimiter, allow}
use theclub_api.Api.Ws.{
  Endpoint, Connection, authenticate, served, admit, welcome, limited, ws_endpoint,
}

-- The connections and the gauge.
abbrev pub occupied : ConnectionRegistry → List ℕ × ℤ
occupied r = (r.connections, r.active)

abbrev IsNew : ℕ → ConnectionRegistry → Type 0
IsNew websocket r = any (λ y. y == websocket) r.connections ≡ false

try_register-full :
    (x : ℕ) (r : ConnectionRegistry)
    → leb r.max_connections (length r.connections) ≡ true
    → try_register x r ≡ (false, r)
unfolding try_register
try_register-full x r full = rw full refl

try_register-room :
    (x : ℕ) (r : ConnectionRegistry)
    → leb r.max_connections (length r.connections) ≡ false
    → try_register x r ≡ (true, (try_register x r).1)
unfolding try_register
try_register-room x r room = rw room refl

unregister-register :
    (x : ℕ) (r : ConnectionRegistry)
    → IsNew x r
    → leb r.max_connections (length r.connections) ≡ false
    → occupied (unregister x (try_register x r).1) ≡ occupied r
unfolding unregister try_register
unregister-register x r absent room =
    let self : (x == x) ≡ true = ground arith in
    let back : r.active +ℤ pos 1 -ℤ pos 1 ≡ r.active = omega int_laws in
    rw (room, absent, self) (λ i. (discard_absent x r.connections absent i, back i))

module _ {S : Type 0} (c : Connection) where
  served-registry :
      (user_id : ℕ) (r : Result (Unit {0})) (app : Endpoint S)
      → (served c user_id r app).1.registry ≡ app.registry
  served-registry user_id (ok _) app = refl
  served-registry user_id (err e) app = refl

  admit-occupied :
      (user_id : ℕ) (app : Endpoint S)
      → IsNew c.websocket app.registry
      → occupied (admit c user_id app (try_register c.websocket app.registry)).1.registry
        ≡ occupied app.registry
  admit-occupied user_id app new =
      let registry = app.registry in
      elim (Bool-cases (leb registry.max_connections (length registry.connections))) [
        | inl full ↦
            ap (λ r. occupied (admit c user_id app r).1.registry)
              (try_register-full c.websocket registry full)
        | inr room ↦
            ap (λ r. occupied (admit c user_id app r).1.registry)
              (try_register-room c.websocket registry room)
            ∙ ap (λ r. occupied (unregister c.websocket r))
                (served-registry user_id c.accept
                  (record app { registry = (try_register c.websocket registry).1 }))
            ∙ unregister-register c.websocket registry new room
      ]

  welcome-occupied :
      (app : Endpoint S) (answer : Result (Option ℕ) × Db)
      → IsNew c.websocket app.registry
      → occupied (welcome c app answer).1.registry ≡ occupied app.registry
  welcome-occupied app (ok none, db) new = refl
  welcome-occupied app (ok (some user_id), db) new =
      admit-occupied user_id (record app { db = db }) new
  welcome-occupied app (err e, db) new = refl

  limited-occupied :
      (w : World) (settings : Settings) (app : Endpoint S) (answer : Bool × S)
      → IsNew c.websocket app.registry
      → occupied (limited c w settings app answer).1.registry ≡ occupied app.registry
  limited-occupied w settings app (true, redis) new =
      welcome-occupied (record app { redis = redis }) (authenticate w settings c.token app.db) new
  limited-occupied w settings app (false, redis) new = refl

  -- However a connection ends, refused, with a handshake or a service that raised, or served to its
  -- end, its slot is free afterwards: the connections and their gauge are what they were before it,
  -- if its websocket was not registered then.
  pub ws_endpoint-occupied :
      (w : World) (settings : Settings) (limiter : WsConnectRateLimiter S) (app : Endpoint S)
      → any (λ y. y == c.websocket) app.registry.connections ≡ false
      → occupied (ws_endpoint c w settings limiter app).1.registry ≡ occupied app.registry
  unfolding ws_endpoint
  ws_endpoint-occupied w settings limiter app new =
      limited-occupied w settings app (allow limiter c.client_ip c.time app.redis) new
