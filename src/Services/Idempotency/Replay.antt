-- ===== src/Services/Idempotency/Replay.antt =====
-- A request that succeeded once is answered from then on without its work.
use text.Mathlib.TextEquality.{eq_iff}
use theclub_api.Prelude.{
  String, ℕ, ◌≡◌, refl, sym, ap, ◌∙◌, arith, true, false, none, some, List, [], ◌∷◌,
}
use theclub_api.Result.{Result, ok, err, key_conflict}
use theclub_api.Exec.{Exec, pure, ◌>>◌, bind_returned, bind_step, returned_eq, continue, ◌>>=◌}
use theclub_api.World.Transactions.{in_transaction, settle, begun}
use theclub_api.Json.{Dict}
use theclub_api.Rows.{
  update_id, update_id_own, select, select-append_row, select-update_id, select_none,
}
use theclub_api.Db.{Db, IdempotencyKey, IdempotencyStatus}
use theclub_api.World.{World}
use theclub_api.Repositories.RefreshTokens.{eq_bytes, eq_bytes_refl}
use theclub_api.Repositories.IdempotencyKeys.{is_key, get, completed_row, mark_completed, delete}
use theclub_api.Services.Idempotency.{
  Request, body_or_empty, try_reserve, answer_status, answer_existing, resolve_existing,
  work_and_mark, perform, forget_row, answer_or_retry, perform_or_resolve, run_idempotent,
}
use theclub_api.Services.Idempotency.Reserved.{
  is_taken, after_calls, with_row, new_row, new_id, is_taken-select, try_reserve-taken,
}

abbrev pub keys : Db → List (ℕ × IdempotencyKey)
keys db = db.idempotency_keys

-- The row `id` is completed with `body`.
abbrev pub with_body : ℕ → Dict → Db → Db
with_body id body db = record db {
  idempotency_keys = update_id id (completed_row body) db.idempotency_keys;
}

-- The only row of a user's key, with its id.
pub record Stored (user_id : ℕ) (key : String) (db : Db) : Type 0 where
  pub id : ℕ
  pub row : IdempotencyKey
  pub only : select (is_key user_id key) db.idempotency_keys ≡ (id, row) ∷ []

-- The key of the request is completed with its hash, and its row holds `body`.
pub record Completed (request : Request) (body : Dict) (db : Db) : Type 0 where
  pub stored : Stored request.user_id request.key db
  pub hash : eq_bytes stored.row.request_hash request.request_hash ≡ true
  pub status : stored.row.status ≡ IdempotencyStatus.completed
  pub answer : body_or_empty stored.row.response_body ≡ body

pub Completed-keys :
    (request : Request) (body : Dict) (db other : Db)
    → keys other ≡ keys db
    → Completed request body db
    → Completed request body other
Completed-keys request body db other e c = record {
  stored = record {
    id = c.stored.id;
    row = c.stored.row;
    only = ap (select (is_key request.user_id request.key)) e ∙ c.stored.only;
  };
  hash = c.hash;
  status = c.status;
  answer = c.answer;
}

module _ (w : World) (request : Request) where
  -- What `_resolve_existing` answers where the row is completed, and where it has another hash.
  resolve_existing-Completed :
      (body : Dict) (db : Db)
      → Completed request body db
      → resolve_existing w request db ≡ (ok (some body), db)
  unfolding resolve_existing get answer_existing answer_status ◌>>=◌
  resolve_existing-Completed body db c = rw (c.stored.only, c.hash, c.status, c.answer) refl

  resolve_existing-conflict :
      (db : Db) (s : Stored request.user_id request.key db)
      → eq_bytes s.row.request_hash request.request_hash ≡ false
      → resolve_existing w request db ≡ (err key_conflict, db)
  unfolding resolve_existing get answer_existing ◌>>=◌
  resolve_existing-conflict db s differs = rw (s.only, differs) refl

  -- A request whose key is taken goes on with `_resolve_existing`.
  run_idempotent-taken :
      (work : Exec Db Dict) (db : Db)
      → Stored request.user_id request.key db
      → run_idempotent w request work db
        ≡ (resolve_existing w request >>= answer_or_retry w request work) (after_calls db)
  unfolding run_idempotent perform_or_resolve
  run_idempotent-taken work db s =
      bind_step (try_reserve w request) (perform_or_resolve w request work) db (after_calls db) none
        (try_reserve-taken w request db (is_taken-select request db (s.id, s.row) s.only))

  pub Completed-replay :
      (work : Exec Db Dict) (body : Dict) (db : Db)
      → Completed request body db
      → run_idempotent w request work db ≡ (ok body, after_calls db)
  unfolding answer_or_retry
  Completed-replay work body db c =
      run_idempotent-taken work db c.stored
      ∙ bind_step (resolve_existing w request) (answer_or_retry w request work) (after_calls db)
          (after_calls db) (some body)
          (resolve_existing-Completed body (after_calls db)
            (Completed-keys request body db (after_calls db) refl c))

  pub Stored-conflict :
      (work : Exec Db Dict) (db : Db) (s : Stored request.user_id request.key db)
      → eq_bytes s.row.request_hash request.request_hash ≡ false
      → run_idempotent w request work db ≡ (err key_conflict, after_calls db)
  unfolding ◌>>=◌
  Stored-conflict work db s differs =
      run_idempotent-taken work db s
      ∙ ap (λ r. continue r (answer_or_retry w request work))
          (resolve_existing-conflict (after_calls db)
            (record { id = s.id; row = s.row; only = s.only }) differs)

  forget_settle-ok :
      (id : ℕ) (before after : Db) (body : Dict) (r : Result Dict × Db)
      → forget_row w request id (settle before r) ≡ (ok body, after)
      → r ≡ (ok body, after)
  unfolding in_transaction delete
  forget_settle-ok id before after body (ok b, t) h = h
  forget_settle-ok id before after body (err e, t) h = absurd (cc (ap (λ r. r.0) h))

  marked :
      (id : ℕ) (done after : Db) (b body : Dict)
      → (mark_completed id b >> pure b) done ≡ (ok body, after)
      → (b ≡ body) × (with_body id b done ≡ after)
  unfolding mark_completed ◌>>=◌
  marked id done after b body h = returned_eq h

  -- The work of a request that got through returned the answer, and its row was completed with it.
  pub perform-eq-ok :
      (work : Exec Db Dict) (id : ℕ) (mid after : Db) (body : Dict)
      → perform w request work id mid ≡ (ok body, after)
      → (done : Db) × (work (begun w mid) ≡ (ok body, done)) × (after ≡ with_body id body done)
  unfolding perform in_transaction work_and_mark
  perform-eq-ok work id mid after body h =
      bind_returned work _ (begun w mid) after body
        (forget_settle-ok id mid after body (work_and_mark w request work id (begun w mid)) h)
        λ b done e k.
          let (same, left) = marked id done after b body k in
          (done, e ∙ (λ i. (ok (same i), done)), sym left ∙ (λ i. with_body id (same i) done))

  pub is_key-new_row : (db : Db) → is_key request.user_id request.key (new_row w request db) ≡ true
  is_key-new_row db = rw ((eq_iff request.key request.key).1 refl) (ground arith)

  -- The key that was reserved at `db` is completed once the work has been done, if the work keeps off
  -- the table of keys.
  pub perform-Completed :
      (db done : Db) (body : Dict)
      → is_taken request db ≡ false
      → keys done ≡ keys (with_row w request db)
      → Completed request body (with_body (new_id w db) body done)
  perform-Completed db done body free kept =
      let mine = is_key request.user_id request.key in
      let row = new_row w request db in
      let one : select mine (keys done) ≡ (new_id w db, row) ∷ [] =
        ap (select mine) kept
        ∙ select-append_row mine (keys db) (new_id w db, row) (select_none mine (keys db) free)
            (is_key-new_row db) in
      record {
        stored = record {
          id = new_id w db;
          row = completed_row body row;
          only =
              select-update_id mine (new_id w db) (completed_row body) (keys done) (λ v. refl)
              ∙ ap (update_id (new_id w db) (completed_row body)) one
              ∙ update_id_own (new_id w db) (completed_row body) row;
        };
        hash = eq_bytes_refl request.request_hash;
        status = refl;
        answer = refl;
      }
