-- ===== src/Repositories/IdempotencyKeys.antt =====
-- app/repositories/idempotency.py, and the constraint uq_user_idempotency_key of
-- app/models/idempotency.py.
use text.Mathlib.Text.{◌==◌ as str_eq}
use theclub_api.Prelude.{ℕ, String, Bool, ◌&&◌, ◌==◌, Option, none, some, any, if◌then◌else◌}
use theclub_api.Result.{Result, ok, err, integrity_error}
use theclub_api.Exec.{Exec, ◌>>=◌}
use theclub_api.Json.{Dict}
use theclub_api.Domain.Fairness.{Bytes}
use theclub_api.Rows.{Table, insert_row, update_id, delete_id, select, scalar_one_or_none}
use theclub_api.Db.{Db, IdempotencyKey, IdempotencyStatus}
use theclub_api.World.{World, new_uuid}

abbrev pub is_key : ℕ → String → IdempotencyKey → Bool
is_key user_id key row = row.user_id == user_id && str_eq row.key key

-- `IdempotencyKeyRepository.get`
unfoldable pub get : ℕ → String → Exec Db (Option (ℕ × IdempotencyKey))
get user_id key db = (scalar_one_or_none (select (is_key user_id key) db.idempotency_keys), db)

abbrev pub put_key : IdempotencyKey → ℕ → Result (Table IdempotencyKey) → Exec Db ℕ
put_key row id (ok rows) db = (ok id, record db { idempotency_keys = rows })
put_key row id (err e) db = (err e, db)

-- `INSERT INTO idempotency_keys`: UNIQUE(user_id, key)
unfoldable pub insert_key : IdempotencyKey → ℕ → Exec Db ℕ
insert_key row id db =
    if any (λ r. is_key row.user_id row.key r.1) db.idempotency_keys
    then (err integrity_error, db)
    else put_key row id (insert_row id row db.idempotency_keys) db

-- the row that `create_pending` adds; `created_at` is PostgreSQL's `now()`
abbrev pub pending_row : ℕ → String → Bytes → ℕ → ℕ → IdempotencyKey
pending_row user_id key request_hash expires_at created_at = record {
  user_id = user_id;
  key = key;
  request_hash = request_hash;
  response_body = none;
  status = IdempotencyStatus.pending;
  expires_at = expires_at;
  created_at = created_at;
}

-- `IdempotencyKeyRepository.create_pending`, with the id of the new row
unfoldable pub create_pending : World → ℕ → String → Bytes → ℕ → Exec Db ℕ
create_pending w user_id key request_hash expires_at = do
  id ← new_uuid w
  λ db. insert_key (pending_row user_id key request_hash expires_at db.started) id db

abbrev pub completed_row : Dict → IdempotencyKey → IdempotencyKey
completed_row body row = record row {
  status = IdempotencyStatus.completed;
  response_body = some body;
}

-- `IdempotencyKeyRepository.mark_completed`
unfoldable pub mark_completed : ℕ → Dict → Exec Db (Unit {0})
mark_completed row_id body db = (
  ok tt,
  record db { idempotency_keys = update_id row_id (completed_row body) db.idempotency_keys },
)

-- `IdempotencyKeyRepository.delete`
unfoldable pub delete : ℕ → Exec Db (Unit {0})
delete row_id db = (ok tt, record db { idempotency_keys = delete_id row_id db.idempotency_keys })
