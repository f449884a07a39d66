-- ===== src/Services/Idempotency.antt =====
-- app/services/idempotency.py: the work of a request with an Idempotency-Key, in three transactions.
pub mod Reserved
pub mod Replay
pub mod Outcome
pub mod Failed
pub mod AtMostOnce
pub mod Steps
pub mod Concurrent
use theclub_api.Prelude.{ℕ, ◌+◌, ◌*◌, String, Bool, not, ltb, Option, none, some, if◌then◌else◌}
use theclub_api.Result.{Result, ok, err, integrity_error, key_conflict, in_progress}
use theclub_api.Exec.{Exec, pure, raise, continue, ◌>>=◌, ◌>>◌}
use theclub_api.World.Transactions.{in_transaction}
use theclub_api.Json.{Dict, empty}
use theclub_api.Domain.Fairness.{Bytes}
use theclub_api.Db.{Db, IdempotencyKey, IdempotencyStatus}
use theclub_api.World.{World, read_clock}
use theclub_api.Repositories.Outbox.{seconds}
use theclub_api.Repositories.RefreshTokens.{eq_bytes}
use theclub_api.Repositories.IdempotencyKeys.{get, create_pending, mark_completed, delete}

abbrev pub pending_reclaim_seconds : ℕ
pending_reclaim_seconds = 30

abbrev pub idempotency_key_max_length : ℕ
idempotency_key_max_length = 200

-- `hash_request_body`
abbrev pub hash_request_body : World → Bytes → Bytes
hash_request_body w body = w.sha256_hex body

-- `existing.response_body or {}`
abbrev pub body_or_empty : Option Dict → Dict
body_or_empty none = empty
body_or_empty (some body) = body

-- What run_idempotent is called with, but for the work.
pub record Request : Type 0 where
  pub user_id : ℕ
  pub key : String
  pub request_hash : Bytes
  pub ttl_hours : ℕ

-- `except IntegrityError: return None`
abbrev pub reserved : Result ℕ × Db → Result (Option ℕ) × Db
reserved (ok row_id, db) = (ok (some row_id), db)
reserved (err integrity_error, db) = (ok none, db)
reserved (err e, db) = (err e, db)

module _ (w : World) (request : Request) where
  unfoldable pub reserve : Exec Db ℕ
  reserve = do
    now ← read_clock w
    create_pending w request.user_id request.key request.request_hash
        (now + seconds (request.ttl_hours * 3600))

  -- `_try_reserve`
  unfoldable pub try_reserve : Exec Db (Option ℕ)
  try_reserve db = reserved (in_transaction w reserve db)

  -- the row is reclaimed if it has been pending for too long
  unfoldable pub reclaim : ℕ → IdempotencyKey → Exec Db (Option Dict)
  reclaim id row = do
    now ← read_clock w
    (if ltb (row.created_at + seconds pending_reclaim_seconds) now
        then (do delete id; pure none)
        else raise in_progress)

  unfoldable pub answer_status : IdempotencyStatus → ℕ → IdempotencyKey → Exec Db (Option Dict)
  answer_status IdempotencyStatus.completed id row = pure (some (body_or_empty row.response_body))
  answer_status IdempotencyStatus.pending id row = reclaim id row

  unfoldable pub answer_existing : Option (ℕ × IdempotencyKey) → Exec Db (Option Dict)
  answer_existing none = pure none
  answer_existing (some (id, row)) =
      if not (eq_bytes row.request_hash request.request_hash)
      then raise key_conflict
      else answer_status row.status id row

  -- `_resolve_existing`
  unfoldable pub resolve_existing : Exec Db (Option Dict)
  resolve_existing = do existing ← get request.user_id request.key; answer_existing existing

  -- `except Exception:` the reserved row goes away, and the exception goes on
  abbrev pub forget_row : ℕ → Result Dict × Db → Result Dict × Db
  forget_row row_id (ok body, db) = (ok body, db)
  forget_row row_id (err e, db) = continue (in_transaction w (delete row_id) db) (λ _. raise e)

  module _ (work : Exec Db Dict) where
    unfoldable pub work_and_mark : ℕ → Exec Db Dict
    work_and_mark row_id = do
      response_body ← work
      mark_completed row_id response_body
      pure response_body

    -- the `try` at the end of `run_idempotent`
    unfoldable pub perform : ℕ → Exec Db Dict
    perform row_id db = forget_row row_id (in_transaction w (work_and_mark row_id) db)

    unfoldable pub perform_or_refuse : Option ℕ → Exec Db Dict
    perform_or_refuse none = raise in_progress
    perform_or_refuse (some row_id) = perform row_id

    unfoldable pub answer_or_retry : Option Dict → Exec Db Dict
    answer_or_retry (some cached) = pure cached
    answer_or_retry none = do row_id ← try_reserve; perform_or_refuse row_id

    unfoldable pub perform_or_resolve : Option ℕ → Exec Db Dict
    perform_or_resolve (some row_id) = perform row_id
    perform_or_resolve none = do cached ← resolve_existing; answer_or_retry cached

    -- `run_idempotent`
    unfoldable pub run_idempotent : Exec Db Dict
    run_idempotent = do row_id ← try_reserve; perform_or_resolve row_id
