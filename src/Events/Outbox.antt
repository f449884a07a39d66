-- ===== src/Events/Outbox.antt =====
-- app/events/outbox.py: events are written to the outbox in the transaction that they report.
use Prim.Native.String.{◌++◌ as append_str}
use theclub_api.Prelude.{ℕ, String, Option, none}
use theclub_api.Result.{ok, err, Result}
use theclub_api.Exec.{Exec, lift, pure, ◌>>=◌}
use theclub_api.Rows.{Table, insert_row}
use theclub_api.Db.{Db, OutboxEvent}
use theclub_api.World.{World, new_uuid, read_clock}
use theclub_api.Events.Schemas.{EventData, EventEnvelope, build, event_topic_suffix}

-- `new_envelope`
unfoldable pub new_envelope : World → EventData → Option String → Exec Db EventEnvelope
new_envelope w event_data idempotency_key = do
  event_id ← new_uuid w
  occurred_at ← read_clock w
  pure (record {
    event_id = event_id;
    occurred_at = occurred_at;
    idempotency_key = idempotency_key;
    event_data = event_data;
  })

-- `INSERT INTO outbox`
abbrev pub put_outbox : Result (Table OutboxEvent) → Exec Db (Unit {0})
put_outbox (ok rows) db = (ok tt, record db { outbox = rows })
put_outbox (err e) db = (err e, db)

abbrev pub fresh_event : String → EventEnvelope → ℕ → ℕ → OutboxEvent
fresh_event topic envelope key created_at = record {
  topic = topic;
  key = key;
  payload = envelope;
  created_at = created_at;
  published_at = none;
  attempts = 0;
  last_error = none;
  next_attempt_at = none;
}

-- `enqueue_event`; the key is the user's id
unfoldable pub enqueue_event : World → String → EventEnvelope → ℕ → Exec Db (Unit {0})
enqueue_event w prefix envelope key = do
  id ← new_uuid w
  λ db.
      let topic = append_str prefix (append_str "." (event_topic_suffix envelope.event_data)) in
      put_outbox (insert_row id (fresh_event topic envelope key db.started) db.outbox) db

-- Build the data of an event, wrap it and enqueue it, as each use case does in turn.
unfoldable pub emit : World → String → EventData → Option String → ℕ → Exec Db (Unit {0})
unfolding new_envelope enqueue_event
emit w prefix event_data idempotency_key key = do
  built ← lift (build event_data)
  envelope ← new_envelope w built idempotency_key
  enqueue_event w prefix envelope key
