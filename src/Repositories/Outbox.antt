-- ===== src/Repositories/Outbox.antt =====
-- app/repositories/outbox.py: the relay's side of the outbox. Times are in microseconds.
pub mod Batch
use Prim.Native.String.{slice}
use theclub_api.Prelude.{
  ℕ, ◌+◌, ◌*◌, ◌^◌, String, Bool, true, false, not, ◌&&◌, Option, none, some, List, [], ◌∷◌, ltb,
  leb, take, keep, length, if◌then◌else◌,
}
use theclub_api.Result.{ok}
use theclub_api.Exec.{Exec, ◌>>=◌}
use theclub_api.Rows.{Table, update_id}
use theclub_api.Db.{Db, OutboxEvent}
use theclub_api.World.{World, read_clock}

abbrev pub seconds : ℕ → ℕ
seconds n = n * 1000000

abbrev pub base_backoff_seconds : ℕ
base_backoff_seconds = 2

abbrev pub max_backoff_seconds : ℕ
max_backoff_seconds = 60

-- `min(BASE_BACKOFF_SECONDS * 2**attempts, MAX_BACKOFF_SECONDS)`
unfoldable pub backoff_seconds : ℕ → ℕ
backoff_seconds attempts =
    let backoff = base_backoff_seconds * 2 ^ attempts in
    if leb backoff max_backoff_seconds then backoff else max_backoff_seconds

abbrev pub is_none {ℓ} : {A : Type ℓ} → Option A → Bool
is_none none = true
is_none (some x) = false

abbrev is_due : Option ℕ → ℕ → Bool
is_due none now = true
is_due (some at) now = leb at now

-- the two conditions of the query
abbrev pub is_ready : ℕ → OutboxEvent → Bool
is_ready now row = is_none row.published_at && is_due row.next_attempt_at now

-- `ORDER BY created_at`; rows of one time stand in the order of the table
unfoldable pub insert_by_age : ℕ × OutboxEvent → Table OutboxEvent → Table OutboxEvent
insert_by_age row [] = row ∷ []
insert_by_age row (other ∷ rows) =
    let rest = insert_by_age row rows in
    if leb row.1.created_at other.1.created_at then row ∷ other ∷ rows else other ∷ rest

unfoldable pub order_by_age : Table OutboxEvent → Table OutboxEvent
order_by_age [] = []
order_by_age (row ∷ rows) = insert_by_age row (order_by_age rows)

abbrev pub batch : ℕ → (ℕ → Bool) → ℕ → Table OutboxEvent → Table OutboxEvent
batch now locked limit rows =
    take limit (order_by_age (keep (λ row. is_ready now row.1 && not (locked row.0)) rows))

-- `OutboxRepository.lock_unpublished_batch`; `locked` tells the rows that another relay has locked
unfoldable pub lock_unpublished_batch : World → (ℕ → Bool) → ℕ → Exec Db (Table OutboxEvent)
lock_unpublished_batch w locked limit = do
  now ← read_clock w
  λ db. (ok (batch now locked limit db.outbox), db)

abbrev update_event : ℕ → (OutboxEvent → OutboxEvent) → Exec Db (Unit {0})
update_event id f db = (ok tt, record db { outbox = update_id id f db.outbox })

abbrev pub published : ℕ → OutboxEvent → OutboxEvent
published now row = record row { published_at = some now }

-- `OutboxRepository.mark_published`
unfoldable pub mark_published : World → ℕ → Exec Db (Unit {0})
mark_published w id = do now ← read_clock w; update_event id (published now)

abbrev pub failed : ℕ → ℕ → String → OutboxEvent → OutboxEvent
failed now attempts error row = record row {
  attempts = attempts;
  last_error = some (slice error 0 500);
  next_attempt_at = some (now + seconds (backoff_seconds attempts));
}

-- `OutboxRepository.mark_failed`
unfoldable pub mark_failed : World → ℕ → ℕ → String → Exec Db (Unit {0})
mark_failed w id attempts error = do now ← read_clock w; update_event id (failed now attempts error)

abbrev is_older : Option ℕ → ℕ → Bool
is_older none older_than = false
is_older (some at) older_than = ltb at older_than

abbrev pub is_purged : ℕ → OutboxEvent → Bool
is_purged older_than row = not (is_none row.published_at) && is_older row.published_at older_than

-- `OutboxRepository.purge_published`: the rows that are deleted are counted
unfoldable pub purge_published : ℕ → Exec Db ℕ
purge_published older_than db = (
  ok (length (keep (λ row. is_purged older_than row.1) db.outbox)),
  record db { outbox = keep (λ row. not (is_purged older_than row.1)) db.outbox },
)
