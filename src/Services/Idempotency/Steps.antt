-- ===== src/Services/Idempotency/Steps.antt =====
-- app/services/idempotency.py, `run_idempotent` cut at the ends of its transactions: what other requests
-- can see of it, and where they can run in between.
use theclub_api.Prelude.{ℕ, ◌≡◌, refl, Option, none, some}
use theclub_api.Result.{Error, Result, ok, err, in_progress, out_of_fuel}
use theclub_api.Exec.{Exec, continue, raise, ◌>>=◌}
use theclub_api.World.Transactions.{in_transaction}
use theclub_api.Json.{Dict}
use theclub_api.Db.{Db}
use theclub_api.World.{World}
use theclub_api.Repositories.IdempotencyKeys.{delete}
use theclub_api.Services.Idempotency.{
  Request, try_reserve, resolve_existing, forget_row, work_and_mark, perform, perform_or_refuse,
  answer_or_retry, perform_or_resolve, run_idempotent,
}

-- Where a request stands: before one of its transactions, or at its end. `done` is the end of a request
-- that did its work, `answered` of one that found the answer.
pub data Phase : Type 0 where
  reserving resolving retrying : Phase
  working : ℕ → Phase
  cleaning : ℕ → Error → Phase
  done answered : Dict → Phase
  failed : Error → Phase

abbrev pub after_reserve : Phase → Result (Option ℕ) × Db → Phase × Db
after_reserve next (ok (some row_id), db) = (working row_id, db)
after_reserve next (ok none, db) = (next, db)
after_reserve next (err e, db) = (failed e, db)

abbrev pub after_resolve : Result (Option Dict) × Db → Phase × Db
after_resolve (ok (some body), db) = (answered body, db)
after_resolve (ok none, db) = (retrying, db)
after_resolve (err e, db) = (failed e, db)

abbrev pub after_work : ℕ → Result Dict × Db → Phase × Db
after_work row_id (ok body, db) = (done body, db)
after_work row_id (err e, db) = (cleaning row_id e, db)

abbrev pub after_clean : Error → Result (Unit {0}) × Db → Phase × Db
after_clean e (ok _, db) = (failed e, db)
after_clean e (err raised, db) = (failed raised, db)

module _ (w : World) (request : Request) (work : Exec Db Dict) where
  -- The next transaction of a request.
  unfoldable pub advance : Phase → Db → Phase × Db
  advance reserving db = after_reserve resolving (try_reserve w request db)
  advance resolving db = after_resolve (resolve_existing w request db)
  advance retrying db = after_reserve (failed in_progress) (try_reserve w request db)
  advance (working row_id) db =
      after_work row_id (in_transaction w (work_and_mark w request work row_id) db)
  advance (cleaning row_id e) db = after_clean e (in_transaction w (delete row_id) db)
  advance (done body) db = (done body, db)
  advance (answered body) db = (answered body, db)
  advance (failed e) db = (failed e, db)

  abbrev pub advance_pair : Phase × Db → Phase × Db
  advance_pair s = advance s.0 s.1

  -- what the caller gets at the end
  abbrev pub outcome : Phase × Db → Result Dict × Db
  outcome (done body, db) = (ok body, db)
  outcome (answered body, db) = (ok body, db)
  outcome (failed e, db) = (err e, db)
  outcome (_, db) = (err out_of_fuel, db)

  clean_alone :
      (e : Error) (r : Result (Unit {0}) × Db)
      → outcome (after_clean e r) ≡ continue r (λ _. raise e)
  clean_alone e (ok _, db) = refl
  clean_alone e (err x, db) = refl

  work_alone :
      (row_id : ℕ) (r : Result Dict × Db)
      → outcome (advance_pair (after_work row_id r)) ≡ forget_row w request row_id r
  unfolding advance
  work_alone row_id (ok body, db) = refl
  work_alone row_id (err e, db) = clean_alone e (in_transaction w (delete row_id) db)

  clean_and_rest :
      (e : Error) (r : Result (Unit {0}) × Db)
      → outcome (advance_pair (advance_pair (after_clean e r))) ≡ continue r (λ _. raise e)
  unfolding advance
  clean_and_rest e (ok _, db) = refl
  clean_and_rest e (err x, db) = refl

  work_and_rest :
      (row_id : ℕ) (r : Result Dict × Db)
      → outcome (advance_pair (advance_pair (advance_pair (after_work row_id r))))
        ≡ forget_row w request row_id r
  unfolding advance
  work_and_rest row_id (ok body, db) = refl
  work_and_rest row_id (err e, db) = clean_and_rest e (in_transaction w (delete row_id) db)

  retry_alone :
      (r : Result (Option ℕ) × Db)
      → outcome (advance_pair (advance_pair (after_reserve (failed in_progress) r)))
        ≡ continue r (perform_or_refuse w request work)
  unfolding advance perform_or_refuse perform
  retry_alone (ok (some row_id), db) =
      work_alone row_id (in_transaction w (work_and_mark w request work row_id) db)
  retry_alone (ok none, db) = refl
  retry_alone (err e, db) = refl

  resolve_alone :
      (r : Result (Option Dict) × Db)
      → outcome (advance_pair (advance_pair (advance_pair (after_resolve r))))
        ≡ continue r (answer_or_retry w request work)
  unfolding advance answer_or_retry ◌>>=◌
  resolve_alone (ok (some body), db) = refl
  resolve_alone (ok none, db) = retry_alone (try_reserve w request db)
  resolve_alone (err e, db) = refl

  reserve_alone :
      (r : Result (Option ℕ) × Db)
      → outcome
          (advance_pair (advance_pair (advance_pair (advance_pair (after_reserve resolving r)))))
        ≡ continue r (perform_or_resolve w request work)
  unfolding advance perform_or_resolve perform ◌>>=◌
  reserve_alone (ok (some row_id), db) =
      work_and_rest row_id (in_transaction w (work_and_mark w request work row_id) db)
  reserve_alone (ok none, db) = resolve_alone (resolve_existing w request db)
  reserve_alone (err e, db) = refl

  -- A request that runs alone is at its end after at most five transactions, with what
  -- `run_idempotent` returns or raises and in the state that it leaves.
  pub run_alone :
      (db : Db)
      → outcome (advance_pair (advance_pair (advance_pair (advance_pair (advance reserving db)))))
        ≡ run_idempotent w request work db
  unfolding advance run_idempotent ◌>>=◌
  run_alone db = reserve_alone (try_reserve w request db)
