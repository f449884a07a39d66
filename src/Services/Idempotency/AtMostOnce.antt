-- ===== src/Services/Idempotency/AtMostOnce.antt =====
-- What follows for the second request with an Idempotency-Key.
use theclub_api.Prelude.{◌≡◌, ap, ◌∙◌, false}
use theclub_api.Result.{ok, err, key_conflict}
use theclub_api.Exec.{Exec}
use theclub_api.Exec.Frames.{Frames}
use theclub_api.Json.{Dict}
use theclub_api.Domain.Fairness.{Bytes}
use theclub_api.Db.{Db}
use theclub_api.World.{World}
use theclub_api.Repositories.RefreshTokens.{eq_bytes, eq_bytes-eq}
use theclub_api.Services.Idempotency.{Request, run_idempotent}
use theclub_api.Services.Idempotency.Reserved.{after_calls}
use theclub_api.Services.Idempotency.Replay.{
  keys, Completed, Completed-keys, Completed-replay, Stored-conflict,
}
use theclub_api.Services.Idempotency.Outcome.{worked, cached, run_idempotent-Answered}

module _ (w : World) (request : Request) (work : Exec Db Dict) (keeps : Frames keys work)
    (db after : Db) (body : Dict) (ran : run_idempotent w request work db ≡ (ok body, after))
    (later : Db) (kept : keys later ≡ keys after) where
  Completed-after : Completed request body later
  Completed-after = elim (run_idempotent-Answered w request work keeps db after body ran) [
    | worked _ _ _ _ _ _ _ c ↦ Completed-keys request body after later kept c
    | cached same c ↦ Completed-keys request body db later (kept ∙ ap keys same) c
  ]

  -- Once a request with a key has succeeded, a request with the same key and hash, in any later
  -- state with the same table of keys and with any work, returns the same answer and changes no
  -- table: its work does not run. The first work does not write the table of keys.
  pub run_idempotent-replay :
      (again : Exec Db Dict) → run_idempotent w request again later ≡ (ok body, after_calls later)
  run_idempotent-replay again = Completed-replay w request again body later Completed-after

  -- Once a request with a key has succeeded, a request of the same user with the same key and another
  -- hash, in any later state with the same table of keys, raises IdempotencyKeyConflictError and
  -- changes no table. The first work does not write the table of keys.
  pub run_idempotent-conflict :
      (again : Exec Db Dict) (hash : Bytes)
      → eq_bytes request.request_hash hash ≡ false
      → run_idempotent w (record request { request_hash = hash }) again later
        ≡ (err key_conflict, after_calls later)
  run_idempotent-conflict again hash differs =
      let c = Completed-after in
      Stored-conflict w (record request { request_hash = hash }) again later
        (record { id = c.stored.id; row = c.stored.row; only = c.stored.only })
        (ap (λ h. eq_bytes h hash)
            (eq_bytes-eq c.stored.row.request_hash request.request_hash c.hash)
          ∙ differs)
