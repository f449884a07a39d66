-- ===== src/Repositories/Outbox/Batch.antt =====
-- Which rows the relay gets, how long a failed row waits, and what a purge leaves.
use native.Mathlib.Nat.{one-le-pow, pow-le-pow_right}
use theclub_api.Prelude.{
  ℕ, zero, suc, ◌==◌, ◌≡◌, ◌≤◌, sym, ap, Bool, true, false, not, ◌&&◌, some, [], ◌∷◌, leb, take,
  keep, length, All, arith, Bool-cases, inl, inr,
}
use theclub_api.Result.{ok}
use theclub_api.Exec.{◌>>=◌, returned_eq}
use theclub_api.Rows.{Table, find_id}
use theclub_api.Db.{Db, OutboxEvent}
use theclub_api.World.{World}
use theclub_api.Repositories.Outbox.{
  is_ready, batch, insert_by_age, order_by_age, lock_unpublished_batch, is_purged, purge_published,
  backoff_seconds,
}

-- Rows with their ages in order.
abbrev pub IsByAge : Table OutboxEvent → Type 0
IsByAge [] = Unit
IsByAge (row ∷ rows) = All (λ other. row.1.created_at ≤ other.1.created_at) rows × IsByAge rows

module _ (P : ℕ × OutboxEvent → Type 0) where
  All-keep :
      (p : ℕ × OutboxEvent → Bool)
      → ((r : ℕ × OutboxEvent) → p r ≡ true → P r)
      → (rows : Table OutboxEvent) → All P (keep p rows)
  All-keep p h [] = tt
  All-keep p h (r ∷ rows) = elim (Bool-cases (p r)) [
    | inl here ↦ rw here (h r here, All-keep p h rows)
    | inr other ↦ rw other (All-keep p h rows)
  ]

  All-kept :
      (p : ℕ × OutboxEvent → Bool) (rows : Table OutboxEvent) → All P rows → All P (keep p rows)
  All-kept p [] h = tt
  All-kept p (r ∷ rows) h = elim (Bool-cases (p r)) [
    | inl here ↦ rw here (h.0, All-kept p rows h.1)
    | inr other ↦ rw other (All-kept p rows h.1)
  ]

  All-insert_by_age :
      (r : ℕ × OutboxEvent) (rows : Table OutboxEvent)
      → P r
      → All P rows
      → All P (insert_by_age r rows)
  unfolding insert_by_age
  All-insert_by_age r [] h hs = (h, tt)
  All-insert_by_age r (o ∷ rows) h hs = elim (Bool-cases (leb r.1.created_at o.1.created_at)) [
    | inl here ↦ rw here (h, hs)
    | inr other ↦ rw other (hs.0, All-insert_by_age r rows h hs.1)
  ]

  All-order_by_age : (rows : Table OutboxEvent) → All P rows → All P (order_by_age rows)
  unfolding order_by_age
  All-order_by_age [] h = tt
  All-order_by_age (r ∷ rows) h =
      All-insert_by_age r (order_by_age rows) h.0 (All-order_by_age rows h.1)

  All-take : (n : ℕ) (rows : Table OutboxEvent) → All P rows → All P (take n rows)
  All-take zero rows h = tt
  All-take (suc n) [] h = tt
  All-take (suc n) (r ∷ rows) h = (h.0, All-take n rows h.1)

-- What holds of every row of the outbox holds of those of a batch.
pub batch-All :
    (P : ℕ × OutboxEvent → Type 0) (now : ℕ) (locked : ℕ → Bool) (limit : ℕ)
    (rows : Table OutboxEvent)
    → All P rows
    → All P (batch now locked limit rows)
batch-All P now locked limit rows h =
    All-take P limit _ (All-order_by_age P _ (All-kept P _ rows h))

All-le :
    (a b : ℕ)
    → a ≤ b
    → (rows : Table OutboxEvent) → All (λ other. b ≤ other.1.created_at) rows
    → All (λ other. a ≤ other.1.created_at) rows
All-le a b le [] h = tt
All-le a b le (r ∷ rows) h = (omega (arith, le, h.0), All-le a b le rows h.1)

insert_by_age-IsByAge :
    (r : ℕ × OutboxEvent) (rows : Table OutboxEvent) → IsByAge rows → IsByAge (insert_by_age r rows)
unfolding insert_by_age
insert_by_age-IsByAge r [] h = (tt, tt)
insert_by_age-IsByAge r (o ∷ rows) h = elim (Bool-cases (leb r.1.created_at o.1.created_at)) [
  | inl here ↦ rw here ((ground arith, All-le _ _ (ground arith) rows h.0), h)
  | inr other ↦
      rw other (All-insert_by_age _ r rows (ground arith) h.0, insert_by_age-IsByAge r rows h.1)
]

order_by_age-IsByAge : (rows : Table OutboxEvent) → IsByAge (order_by_age rows)
unfolding order_by_age
order_by_age-IsByAge [] = tt
order_by_age-IsByAge (r ∷ rows) =
    insert_by_age-IsByAge r (order_by_age rows) (order_by_age-IsByAge rows)

take-IsByAge : (n : ℕ) (rows : Table OutboxEvent) → IsByAge rows → IsByAge (take n rows)
take-IsByAge zero rows h = tt
take-IsByAge (suc n) [] h = tt
take-IsByAge (suc n) (r ∷ rows) h = (All-take _ n rows h.0, take-IsByAge n rows h.1)

length-take_le : (n : ℕ) (rows : Table OutboxEvent) → length (take n rows) ≤ n
length-take_le zero rows = ground arith
length-take_le (suc n) [] = ground arith
length-take_le (suc n) (r ∷ rows) = ground (arith, length-take_le n rows)

module _ (w : World) (locked : ℕ → Bool) (limit : ℕ) (db : Db) where
  abbrev candidates : Table OutboxEvent
  candidates = keep (λ row. is_ready (w.now db.calls) row.1 && not (locked row.0)) db.outbox

  candidate :
      (r : ℕ × OutboxEvent)
      → (is_ready (w.now db.calls) r.1 && not (locked r.0)) ≡ true
      → (is_ready (w.now db.calls) r.1 ≡ true) × (locked r.0 ≡ false)
  candidate r h = ground arith

  -- A batch is read without a change to the outbox; it has at most `limit` rows, oldest first, and each
  -- of them is unpublished, due at the time of the read and not locked by another relay.
  pub lock_unpublished_batch_ready :
      (after : Db) (rows : Table OutboxEvent)
      → lock_unpublished_batch w locked limit db ≡ (ok rows, after)
      → (length rows ≤ limit)
        × IsByAge rows
        × All (λ row. (is_ready (w.now db.calls) row.1 ≡ true) × (locked row.0 ≡ false)) rows
        × (after.outbox ≡ db.outbox)
  unfolding lock_unpublished_batch ◌>>=◌
  lock_unpublished_batch_ready after rows h =
      let e = returned_eq h in
      (
        rw (← e.0) (length-take_le limit (order_by_age candidates)),
        rw (← e.0) (take-IsByAge limit _ (order_by_age-IsByAge candidates)),
        rw (← e.0)
            (All-take _ limit _ (All-order_by_age _ candidates (All-keep _ _ candidate db.outbox))),
        ap (λ (d : Db). d.outbox) (sym e.1),
      )

-- A row that has failed waits at least two seconds and at most sixty, and with more attempts never less.
pub backoff_seconds_bounds :
    (n m : ℕ)
    → n ≤ m
    → (2 ≤ backoff_seconds n) × (backoff_seconds n ≤ backoff_seconds m) × (backoff_seconds m ≤ 60)
unfolding backoff_seconds
backoff_seconds_bounds n m h = (
  ground (arith, one-le-pow n 2 (ground arith)),
  ground (arith, pow-le-pow_right {n = 2} (ground arith) h),
  ground arith,
)

keep-All :
    (p : ℕ × OutboxEvent → Bool) (rows : Table OutboxEvent) → All (λ r. p r ≡ true) (keep p rows)
keep-All p rows = All-keep _ p (λ r h. h) rows

find_id-keep :
    (p : OutboxEvent → Bool) (k : ℕ) (row : OutboxEvent) (rows : Table OutboxEvent)
    → find_id k rows ≡ some row
    → p row ≡ true
    → find_id k (keep (λ r. p r.1) rows) ≡ some row
find_id-keep p k row [] found h = absurd (cc)
find_id-keep p k row ((i, r) ∷ rows) found h = elim (Bool-cases (i == k)) [
  | inl here ↦ let same : r ≡ row = ground arith in ground (arith, ap p same)
  | inr other ↦ elim (Bool-cases (p r)) [
    | inl kept ↦ rw (kept, other) (find_id-keep p k row rows (rw other at found) h)
    | inr dropped ↦ rw dropped (find_id-keep p k row rows (rw other at found) h)
  ]
]

module _ (older_than : ℕ) (db : Db) where
  -- A purge leaves no row that was published before the given time.
  pub purge_published_purges :
      All (λ row. is_purged older_than row.1 ≡ false) (purge_published older_than db).1.outbox
  unfolding purge_published
  purge_published_purges = All-keep _ _ (λ r h. ground arith) db.outbox

  -- A row that a lookup found, unpublished or not published before the given time, is found as it was
  -- after a purge.
  pub purge_published_keeps :
      (k : ℕ) (row : OutboxEvent)
      → find_id k db.outbox ≡ some row
      → is_purged older_than row ≡ false
      → find_id k (purge_published older_than db).1.outbox ≡ some row
  unfolding purge_published
  purge_published_keeps k row found h =
      find_id-keep (λ r. not (is_purged older_than r)) k row db.outbox found (rw h)
