-- ===== src/Events/Relay.antt =====
-- app/events/relay.py and app/events/outbox_cleanup.py: one pass of each background task.
pub mod Passes
pub mod Delivery
pub mod Loops
use theclub_api.Prelude.{ℕ, ◌+◌, ◌*◌, ◌-◌, String, Bool, Option, none, some, List, [], ◌∷◌, length}
use theclub_api.Result.{ok}
use theclub_api.Exec.{Exec, pure, transaction, ◌>>=◌, ◌>>◌}
use theclub_api.Rows.{Table}
use theclub_api.Db.{Db, OutboxEvent}
use theclub_api.World.{World, tick, read_clock}
use theclub_api.Events.Schemas.{EventEnvelope}
use theclub_api.Repositories.Outbox.{
  lock_unpublished_batch, mark_published, mark_failed, purge_published, seconds,
}

-- `producer.send_and_wait` at its n-th call with a topic, a key and a payload: nothing where it
-- returned, or the text of the exception
abbrev pub Producer : Type 0
Producer = ℕ → String → ℕ → EventEnvelope → Option String

abbrev pub relay_batch_size : ℕ
relay_batch_size = 50

module _ (w : World) (producer : Producer) where
  abbrev send : OutboxEvent → Exec Db (Option String)
  send row db = (ok (producer db.calls row.topic row.key row.payload), tick db)

  abbrev settle : ℕ × OutboxEvent → Option String → Exec Db (Unit {0})
  settle (id, row) none = mark_published w id
  settle (id, row) (some error) = mark_failed w id (row.attempts + 1) error

  -- the body of the loop: `try`, `except` and `else`
  unfoldable pub relay_row : ℕ × OutboxEvent → Exec Db (Unit {0})
  relay_row row = do answer ← send row.1; settle row answer

  unfoldable pub relay_rows : Table OutboxEvent → Exec Db (Unit {0})
  relay_rows [] = pure tt
  relay_rows (row ∷ rows) = do relay_row row; relay_rows rows

  abbrev pub relay_batch : Table OutboxEvent → Exec Db ℕ
  relay_batch [] = pure 0
  relay_batch (row ∷ rows) = do relay_rows (row ∷ rows); pure (length (row ∷ rows))

  -- `relay_once`
  unfoldable pub relay_once : (ℕ → Bool) → ℕ → Exec Db ℕ
  relay_once locked batch_size =
      transaction (do rows ← lock_unpublished_batch w locked batch_size; relay_batch rows)

-- `purge_once`
unfoldable pub purge_once : World → ℕ → Exec Db ℕ
purge_once w retention_hours = do
  now ← read_clock w
  transaction (purge_published (now - seconds (retention_hours * 3600)))
