-- ===== src/Main/Started.antt =====
-- The application from its start to its shutdown.
use theclub_api.Prelude.{
  ◌≡◌, ◌↔◌, refl, ap, ◌∙◌, sym, Bool, true, false, Option, none, some, List, [], ◌∷◌, ℕ,
}
use theclub_api.Result.{Error, Result, ok, err}
use theclub_api.Exec.{bind_returned}
use theclub_api.Config.{Settings}
use theclub_api.Ws.Connections.{close_all}
use theclub_api.Api.Health.{ReadinessCheck, ReadinessRegistry, register, ready}
use theclub_api.Api.Health.Ready.{Responds, ready_iff}
use theclub_api.Main.{
  Outside, Application, Failures, create_app, startup, shutdown, await, add_check,
}

module _ {E : Type 0} where
  await_returned :
      (failure : Option Error) (effect : Application E → Application E) (app after : Application E)
      → await failure effect app ≡ (ok tt, after)
      → after ≡ effect app
  await_returned none effect app after h = ap (λ r. r.1) (sym h)
  await_returned (some e) effect app after h =
      let bad : ◌≡◌ {A = Result (Unit {0})} (err e) (ok tt) = ap (λ r. r.0) h in absurd (cc bad)

  -- What is still open, and the connections.
  abbrev pub open_resources : Application E → List Bool × List ℕ
  open_resources app = (
    app.engine_open ∷ app.redis_open ∷ app.producer_running ∷ app.relay_running ∷ app.purge_running
        ∷ [],
    app.ws_connections.connections,
  )

  checks_of : Result (Application E) → ReadinessRegistry E
  checks_of (ok app) = app.readiness
  checks_of (err e) = []

  module _ (out : Outside) (settings : Settings) (database redis kafka : ReadinessCheck E)
      (failures : Failures) (app started : Application E)
      (created : create_app out settings database redis ≡ ok app)
      (start : startup failures kafka app ≡ (ok tt, started)) where
    created_checks : app.readiness ≡ ("database", database) ∷ ("redis", redis) ∷ []
    unfolding create_app register checks_of
    created_checks = sym (ap checks_of created)

    started_checks :
        started.readiness ≡ ("database", database) ∷ ("redis", redis) ∷ ("kafka", kafka) ∷ []
    unfolding startup register
    started_checks = bind_returned _ _ _ _ _ start λ _ s1 e1 h1.
        let begun : s1.readiness ≡ ("database", database) ∷ ("redis", redis) ∷ [] =
          ap (λ (a : Application E). a.readiness)
            (await_returned failures.start (λ a. record a { producer_running = true }) app s1 e1)
          ∙ created_checks in
        bind_returned _ _ _ _ _ h1 λ _ s2 e2 h2.
          let added : (ok tt, s2) ≡ add_check s1 (register "kafka" kafka s1.readiness) = sym e2 in
          ap (λ r. r.1.readiness) (sym h2) ∙ ap (λ r. r.1.readiness) (rw begun at added)

    -- Once the application was created and started, /ready answers 200 exactly if PostgreSQL, Redis and
    -- Kafka each answer their check within two seconds.
    pub startup-ready :
        (env : E)
        → ((ready env started.readiness).status_code ≡ 200)
          ↔ (Responds (database env) × Responds (redis env) × Responds (kafka env))
    startup-ready env =
        let all = (ready_iff env started.readiness).0 in
        (
          λ h. let (d, (r, (k, _))) = rw started_checks at (all.0 h) in (d, r, k),
          λ (d, r, k). all.1 (rw started_checks (d, (r, (k, tt)))),
        )

  -- A shutdown that returned leaves nothing open: no connection of a websocket, neither background task,
  -- not the producer, not Redis, not the engine.
  pub shutdown-closes :
      (failures : Failures) (app after : Application E)
      → shutdown failures app ≡ (ok tt, after)
      → open_resources after ≡ (false ∷ false ∷ false ∷ false ∷ false ∷ [], [])
  unfolding shutdown close_all
  shutdown-closes failures app after h = bind_returned _ _ _ _ _ h λ _ s1 e1 h1.
      bind_returned _ _ _ _ _ h1 λ _ s2 e2 h2. bind_returned _ _ _ _ _ h2 λ _ s3 e3 h3.
        bind_returned _ _ _ _ _ h3 λ _ s4 e4 h4. bind_returned _ _ _ _ _ h4 λ _ s5 e5 h5.
          let f1 : s1 ≡ record app { ws_connections = (close_all app.ws_connections).1 } =
            ap (λ r. r.1) (sym e1) in
          let f2 = await_returned failures.close_relay _ s1 s2 e2 in
          let f3 = await_returned failures.close_purge _ s2 s3 e3 in
          let f4 = await_returned failures.stop _ s3 s4 e4 in
          let f5 = await_returned failures.aclose _ s4 s5 e5 in
          let f6 = await_returned failures.dispose _ s5 after h5 in rw (f6, f5, f4, f3, f2, f1) refl
