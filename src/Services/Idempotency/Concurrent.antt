-- ===== src/Services/Idempotency/Concurrent.antt =====
-- Any number of requests with one key at once, with their transactions in any order.
pub mod Transitions
pub mod Work
pub mod Once
use theclub_api.Prelude.{
  ℕ, suc, ◌+◌, ◌≡◌, ◌⊎◌, refl, sym, ap, ◌∙◌, subst, arith, Bool, true, false, not, ◌==◌, ==_iff,
  Bool-cases, inl, inr, Option, none, some, List, [], ◌∷◌, ltb, if◌then◌else◌,
}
use theclub_api.Result.{Error, Result, ok, err, in_progress, key_conflict}
use theclub_api.Exec.{Exec, ◌>>=◌}
use theclub_api.Exec.Frames.{Frames, framed}
use theclub_api.World.Transactions.{in_transaction, settle, begun}
use theclub_api.Json.{Dict}
use theclub_api.Domain.Fairness.{Bytes}
use theclub_api.Rows.{Table, select, select_none, scalar_one_or_none}
use theclub_api.Db.{Db, IdempotencyKey, IdempotencyStatus}
use theclub_api.World.{World}
use theclub_api.Repositories.Outbox.{seconds}
use theclub_api.Repositories.RefreshTokens.{eq_bytes}
use theclub_api.Repositories.IdempotencyKeys.{is_key, get, completed_row, delete}
use theclub_api.Services.Idempotency.{
  Request, pending_reclaim_seconds, try_reserve, answer_status, answer_existing, reclaim,
  resolve_existing, work_and_mark,
}
use theclub_api.Services.Idempotency.Reserved.{
  is_taken, after_calls, with_row, new_row, new_id, Attempt, won, lost, attempt, is_taken-select,
}
use theclub_api.Services.Idempotency.Replay.{keys}
use theclub_api.Services.Idempotency.Steps.{
  Phase, reserving, resolving, retrying, working, cleaning, done, answered, failed, after_reserve,
  after_resolve, after_work, after_clean, advance,
}

-- The rows of the request's key.
abbrev pub rows_of : Request → Db → Table IdempotencyKey
rows_of request db = select (is_key request.user_id request.key) db.idempotency_keys

abbrev pub set_phase : ℕ → Phase → (ℕ → Phase) → ℕ → Phase
set_phase i p phases j = if j == i then p else phases j

-- No row of the key has been pending for so long that it would be reclaimed now.
abbrev pub IsPrompt : World → Request → Db → Type 0
IsPrompt w request db =
    (id : ℕ) (row : IdempotencyKey)
    → rows_of request db ≡ (id, row) ∷ []
    → row.status ≡ IdempotencyStatus.pending
    → ltb (row.created_at + seconds pending_reclaim_seconds) (w.now db.calls) ≡ false

-- A request of the same user with the same key, with a body and a time to live of its own.
abbrev pub variant : Request → (ℕ → Bytes × ℕ) → ℕ → Request
variant request own i = record request { request_hash = (own i).0; ttl_hours = (own i).1 }

-- What can happen from a database without the key on: request `i` begins and ends its next
-- transaction, or other requests leave the rows of this key as they are.
pub data Reachable (w : World) (request : Request) (own : ℕ → Bytes × ℕ) (works : ℕ → Exec Db Dict)
    (first : Db) : Db → (ℕ → Phase) → Type 0 where
  start : Reachable w request own works first first (λ i. reserving)
  step :
      {db : Db} {phases : ℕ → Phase} (i : ℕ)
      → Reachable w request own works first db phases
      → IsPrompt w request db
      → Reachable w request own works first
          (advance w (variant request own i) (works i) (phases i) db).1
          (set_phase i (advance w (variant request own i) (works i) (phases i) db).0 phases)
  others :
      {db : Db} {phases : ℕ → Phase} (other : Db)
      → Reachable w request own works first db phases
      → rows_of request other ≡ rows_of request db
      → Reachable w request own works first other phases

-- A request that has neither reserved the key nor got an answer.
abbrev IsQuiet : Phase → Type 0
IsQuiet reserving = Unit
IsQuiet resolving = Unit
IsQuiet retrying = Unit
IsQuiet (working id) = ⊥
IsQuiet (cleaning id e) = ⊥
IsQuiet (done body) = ⊥
IsQuiet (answered body) = ⊥
IsQuiet (failed e) = Unit

abbrev IsOwner : ℕ → Phase → Type 0
IsOwner row_id (working id) = id ≡ row_id
IsOwner row_id (cleaning id e) = id ≡ row_id
IsOwner row_id _ = ⊥

abbrev IsSettled : Dict → Phase → Type 0
IsSettled body (answered found) = found ≡ body
IsSettled body p = IsQuiet p

-- How the rows of the key and the requests agree: no row and nobody at work; a pending row and one
-- request at work on it; a completed row and one request that did the work.
pub data Agrees (rows : Table IdempotencyKey) (phases : ℕ → Phase) : Type 0 where
  free : rows ≡ [] → ((j : ℕ) → IsQuiet (phases j)) → Agrees rows phases
  held :
      (id : ℕ) (row : IdempotencyKey) (owner : ℕ)
      → rows ≡ (id, row) ∷ []
      → row.status ≡ IdempotencyStatus.pending
      → IsOwner id (phases owner)
      → ((j : ℕ) → (j == owner) ≡ false → IsQuiet (phases j))
      → Agrees rows phases
  stored :
      (id : ℕ) (row : IdempotencyKey) (body : Dict) (owner : ℕ)
      → rows ≡ (id, row) ∷ []
      → row.status ≡ IdempotencyStatus.completed
      → row.response_body ≡ some body
      → phases owner ≡ done body
      → ((j : ℕ) → (j == owner) ≡ false → IsSettled body (phases j))
      → Agrees rows phases

set_here : (i : ℕ) (p : Phase) (phases : ℕ → Phase) → set_phase i p phases i ≡ p
set_here i p phases = let self : (i == i) ≡ true = ground arith in rw self refl

set_all :
    (P : Phase → Type 0) (i : ℕ) (p : Phase) (phases : ℕ → Phase)
    → P p
    → ((j : ℕ) → P (phases j))
    → (j : ℕ) → P (set_phase i p phases j)
set_all P i p phases h all j = elim (Bool-cases (j == i)) [
  | inl here ↦ rw here h
  | inr other ↦ rw other (all j)
]

-- Others than `owner`, of which one has moved.
set_others :
    (P : Phase → Type 0) (i owner : ℕ) (p : Phase) (phases : ℕ → Phase)
    → P p
    → ((j : ℕ) → (j == owner) ≡ false → P (phases j))
    → (j : ℕ) → (j == owner) ≡ false
    → P (set_phase i p phases j)
set_others P i owner p phases h all j h2 = elim (Bool-cases (j == i)) [
  | inl here ↦ rw here h
  | inr other ↦ rw other (all j h2)
]

-- Others than `owner`, after a move of the owner.
set_owner :
    (P : Phase → Type 0) (i : ℕ) (p : Phase) (phases : ℕ → Phase)
    → ((j : ℕ) → (j == i) ≡ false → P (phases j))
    → (j : ℕ) → (j == i) ≡ false
    → P (set_phase i p phases j)
set_owner P i p phases all j other = rw other (all j other)

-- What holds of one request and not of the one that moves holds afterwards.
set_kept :
    (P : Phase → Type 0) (i owner : ℕ) (p : Phase) (phases : ℕ → Phase)
    → (P (phases i) → ⊥)
    → P (phases owner)
    → P (set_phase i p phases owner)
set_kept P i owner p phases never h = elim (Bool-cases (owner == i)) [
  | inl here ↦
      let same : owner ≡ i = (==_iff owner i).0 here in
      absurd (never (subst (λ o. P (phases o)) same h))
  | inr other ↦ rw other h
]

quiet_owner : (id : ℕ) (p : Phase) → IsQuiet p → IsOwner id p → ⊥
quiet_owner id (working x) q o = q
quiet_owner id (cleaning x e) q o = q
quiet_owner id reserving q o = o
quiet_owner id resolving q o = o
quiet_owner id retrying q o = o
quiet_owner id (done b) q o = o
quiet_owner id (answered b) q o = o
quiet_owner id (failed e) q o = o

quiet_done : (p : Phase) (body : Dict) → IsQuiet p → p ≡ done body → ⊥
quiet_done p body q e = subst IsQuiet e q

quiet-IsSettled : (body : Dict) (p : Phase) → IsQuiet p → IsSettled body p
quiet-IsSettled body (answered x) q = absurd q
quiet-IsSettled body (working x) q = q
quiet-IsSettled body (cleaning x e) q = q
quiet-IsSettled body reserving q = q
quiet-IsSettled body resolving q = q
quiet-IsSettled body retrying q = q
quiet-IsSettled body (done b) q = q
quiet-IsSettled body (failed e) q = q

-- A request that stays away from the row.
quiet_step :
    (rows : Table IdempotencyKey) (phases : ℕ → Phase) (i : ℕ) (p : Phase)
    → IsQuiet (phases i)
    → IsQuiet p
    → Agrees rows phases
    → Agrees rows (set_phase i p phases)
quiet_step rows phases i p before after (free none_there all) =
    free none_there (set_all IsQuiet i p phases after all)
quiet_step rows phases i p before after (held id row owner r pending mine all) =
    held id row owner r pending
      (set_kept (IsOwner id) i owner p phases (quiet_owner id (phases i) before) mine)
      (set_others IsQuiet i owner p phases after all)
quiet_step rows phases i p before after (stored id row body owner r completed answer mine all) =
    stored id row body owner r completed answer
      (set_kept (λ q. q ≡ done body) i owner p phases (quiet_done (phases i) body before) mine)
      (set_others (IsSettled body) i owner p phases (quiet-IsSettled body p after) all)

-- A request at its end stays there.
rest_step :
    (rows : Table IdempotencyKey) (phases : ℕ → Phase) (i : ℕ) (p : Phase)
    → phases i ≡ p
    → Agrees rows phases
    → Agrees rows (set_phase i p phases)
rest_step rows phases i p e h = subst (Agrees rows) (λ k j. sym (same j) k) h
  where
    same : (j : ℕ) → set_phase i p phases j ≡ phases j
    same j = elim (Bool-cases (j == i)) [
      | inl here ↦ rw here (sym e ∙ ap phases (sym ((==_iff j i).0 here)))
      | inr other ↦ rw other refl
    ]
