-- ===== src/Services/Idempotency/Outcome.antt =====
-- How a request with an Idempotency-Key ends: its work was done once, or an earlier answer was returned,
-- or it failed and changed nothing.
use theclub_api.Prelude.{
  ◌≢◌, subst, String, ℕ, ◌≡◌, refl, sym, ap, ◌∙◌, true, false, Option, none, some, [], Bool-cases,
  inl, inr, ltb, ◌+◌,
}
use theclub_api.Result.{ok, err, key_conflict, in_progress}
use theclub_api.Exec.{Exec, bind_returned, bind_step, returned_eq, ◌>>=◌}
use theclub_api.Exec.Frames.{Frames, framed, frames_rules, Frames-bind, Frames-raise}
use theclub_api.World.Transactions.{begun}
use theclub_api.Json.{Dict}
use theclub_api.Rows.{scalar_one_or_none-eq-some, select}
use theclub_api.Db.{Db, IdempotencyKey, IdempotencyStatus}
use theclub_api.World.{World, read_clock}
use theclub_api.Repositories.Outbox.{seconds}
use theclub_api.Repositories.RefreshTokens.{eq_bytes}
use theclub_api.Repositories.IdempotencyKeys.{is_key, get, delete}
use theclub_api.Services.Idempotency.{
  Request, body_or_empty, pending_reclaim_seconds, reclaim, try_reserve, answer_status,
  answer_existing, resolve_existing, perform, perform_or_refuse, answer_or_retry,
  perform_or_resolve, run_idempotent,
}
use theclub_api.Services.Idempotency.Reserved.{
  is_taken, after_calls, with_row, new_id, won, lost, attempt,
}
use theclub_api.Services.Idempotency.Replay.{
  keys, with_body, Completed, Completed-keys, perform-eq-ok, perform-Completed,
}

-- Every table but that of the keys.
abbrev pub rest : Db → Db
rest db = record db { idempotency_keys = []; started = 0; calls = 0 }

get-Frames : (user_id : ℕ) (key : String) → Frames rest (get user_id key)
unfolding get
get-Frames user_id key = record { at = λ db. refl }

delete-Frames : (id : ℕ) → Frames rest (delete id)
unfolding delete
delete-Frames id = record { at = λ db. refl }

read_clock-Frames : (w : World) → Frames rest (read_clock w)
read_clock-Frames w = record { at = λ db. refl }

module _ (w : World) (request : Request) where
  reclaim-Frames : (id : ℕ) (row : IdempotencyKey) → Frames rest (reclaim w request id row)
  unfolding reclaim
  reclaim-Frames id row = Frames-bind _ _ (read_clock-Frames w) λ now.
      elim (Bool-cases (ltb (row.created_at + seconds pending_reclaim_seconds) now)) [
        | inl stuck ↦ rw stuck (search (frames_rules, delete-Frames))
        | inr working ↦ rw working (Frames-raise in_progress)
      ]

  answer_status-Frames :
      (status : IdempotencyStatus) (id : ℕ) (row : IdempotencyKey)
      → Frames rest (answer_status w request status id row)
  unfolding answer_status
  answer_status-Frames IdempotencyStatus.completed id row = search frames_rules
  answer_status-Frames IdempotencyStatus.pending id row = reclaim-Frames id row

  answer_existing-Frames :
      (existing : Option (ℕ × IdempotencyKey)) → Frames rest (answer_existing w request existing)
  unfolding answer_existing
  answer_existing-Frames none = search frames_rules
  answer_existing-Frames (some (id, row)) =
      elim (Bool-cases (eq_bytes row.request_hash request.request_hash)) [
        | inl same ↦ rw same (answer_status-Frames row.status id row)
        | inr other ↦ rw other (Frames-raise key_conflict)
      ]

  pub resolve_existing-Frames : Frames rest (resolve_existing w request)
  unfolding resolve_existing
  resolve_existing-Frames = search (frames_rules, get-Frames, answer_existing-Frames)

  -- A row that is reclaimed gives no answer, nor does one that is not.
  reclaim-none :
      (id : ℕ) (row : IdempotencyKey) (db after : Db) (body : Dict)
      → reclaim w request id row db ≢ (ok (some body), after)
  unfolding reclaim ◌>>=◌ delete
  reclaim-none id row db after body h =
      elim (Bool-cases (ltb (row.created_at + seconds pending_reclaim_seconds) (w.now db.calls))) [
        | inl stuck ↦
            let bad : ok none ≡ ok (some body) = ap (λ r. r.0) (rw stuck at h) in absurd (cc bad)
        | inr working ↦
            let bad : err in_progress ≡ ok (some body) = ap (λ r. r.0) (rw working at h) in
            absurd (cc bad)
      ]

  answer_status-some :
      (status : IdempotencyStatus) (id : ℕ) (row : IdempotencyKey) (db after : Db) (body : Dict)
      → answer_status w request status id row db ≡ (ok (some body), after)
      → (after ≡ db)
        × (status ≡ IdempotencyStatus.completed)
        × (body_or_empty row.response_body ≡ body)
  unfolding answer_status
  answer_status-some IdempotencyStatus.completed id row db after body h =
      let (same, left) = returned_eq h in (sym left, refl, cc same)
  answer_status-some IdempotencyStatus.pending id row db after body h =
      absurd (reclaim-none id row db after body h)

  -- A cached answer is that of a completed row with the hash of the request.
  answer_existing-some :
      (id : ℕ) (row : IdempotencyKey) (db after : Db) (body : Dict)
      → answer_existing w request (some (id, row)) db ≡ (ok (some body), after)
      → (eq_bytes row.request_hash request.request_hash ≡ true)
        × (after ≡ db)
        × (row.status ≡ IdempotencyStatus.completed)
        × (body_or_empty row.response_body ≡ body)
  unfolding answer_existing
  answer_existing-some id row db after body h =
      elim (Bool-cases (eq_bytes row.request_hash request.request_hash)) [
        | inl same ↦
            let (left, done, stored) =
              answer_status-some row.status id row db after body (rw same at h) in
            (same, left, done, stored)
        | inr other ↦
            let bad : err key_conflict ≡ ok (some body) = ap (λ r. r.0) (rw other at h) in
            absurd (cc bad)
      ]

  found-Completed :
      (existing : Option (ℕ × IdempotencyKey)) (db mid after : Db) (body : Dict)
      → get request.user_id request.key db ≡ (ok existing, mid)
      → answer_existing w request existing mid ≡ (ok (some body), after)
      → (after ≡ db) × Completed request body db
  unfolding answer_existing get
  found-Completed none db mid after body e h =
      let bad : ok none ≡ ok (some body) = ap (λ r. r.0) h in absurd (cc bad)
  found-Completed (some (id, row)) db mid after body e h =
      let (same, left, done, stored) = answer_existing-some id row mid after body h in
      (
        left ∙ sym (ap (λ r. r.1) e),
        record {
          stored = record {
            id = id;
            row = row;
            only =
                scalar_one_or_none-eq-some
                  (select (is_key request.user_id request.key) db.idempotency_keys) (id, row)
                  (ap (λ r. r.0) e);
          };
          hash = same;
          status = done;
          answer = stored;
        },
      )

  resolve_existing-some :
      (db after : Db) (body : Dict)
      → resolve_existing w request db ≡ (ok (some body), after)
      → (after ≡ db) × Completed request body db
  unfolding resolve_existing
  resolve_existing-some db after body h =
      bind_returned (get request.user_id request.key) _ db after (some body) h
        λ existing mid e k. found-Completed existing db mid after body e k

  pub try_reserve-Frames : Frames rest (try_reserve w request)
  try_reserve-Frames = record {
    at = λ db. elim (attempt w request db) [
      | won free fresh e ↦ ap (λ r. rest r.1) e
      | lost e ↦ ap (λ r. rest r.1) e
    ];
  }

  -- A request that succeeded reserved the key, which was free, in the state `base`, did its work in a
  -- transaction on the reservation, with a result in the state `done`, and its answer was stored; or
  -- it was answered by an earlier one.
  pub data Answered (work : Exec Db Dict) (db after : Db) (body : Dict) : Type 0 where
    worked :
        (base done : Db)
        → rest base ≡ rest db
        → is_taken request base ≡ false
        → try_reserve w request base ≡ (ok (some (new_id w base)), with_row w request base)
        → work (begun w (with_row w request base)) ≡ (ok body, done)
        → rest after ≡ rest done
        → Completed request body after
        → Answered work db after body
    cached : after ≡ after_calls db → Completed request body db → Answered work db after body

  module _ (work : Exec Db Dict) (keeps : Frames keys work) where
    -- The work after a reservation at `base`.
    performed :
        (db base after : Db) (body : Dict)
        → rest base ≡ rest db
        → is_taken request base ≡ false
        → try_reserve w request base ≡ (ok (some (new_id w base)), with_row w request base)
        → perform w request work (new_id w base) (with_row w request base) ≡ (ok body, after)
        → Answered work db after body
    performed db base after body same free reserved h =
        let (done, e, left) =
          perform-eq-ok w request work (new_id w base) (with_row w request base) after body h in
        worked base done same free reserved e (ap rest left) (
          Completed-keys request body (with_body (new_id w base) body done) after (ap keys left)
            (perform-Completed w request base done body free (framed keeps e)))

    retried :
        (db base after : Db) (body : Dict)
        → rest base ≡ rest db
        → (try_reserve w request >>= perform_or_refuse w request work) base ≡ (ok body, after)
        → Answered work db after body
    unfolding perform_or_refuse
    retried db base after body same h = elim (attempt w request base) [
      | won free fresh e ↦ performed db base after body same free e (
          sym (bind_step (try_reserve w request) (perform_or_refuse w request work) base _ _ e) ∙ h)
      | lost e ↦
          let bad : err in_progress ≡ ok body =
            ap (λ r. r.0)
              (sym (bind_step (try_reserve w request) (perform_or_refuse w request work) base _ _ e)
                ∙ h) in
          absurd (cc bad)
    ]

    resolved :
        (cache : Option Dict) (db mid after : Db) (body : Dict)
        → resolve_existing w request (after_calls db) ≡ (ok cache, mid)
        → answer_or_retry w request work cache mid ≡ (ok body, after)
        → Answered work db after body
    unfolding answer_or_retry
    resolved none db mid after body e h =
        retried db mid after body (framed resolve_existing-Frames e) h
    resolved (some found) db mid after body e h =
        let (left, done) = resolve_existing-some (after_calls db) mid found e in
        let (equal, kept) = returned_eq h in
        cached (sym kept ∙ left) (
          subst (λ b. Completed request b db) equal
            (Completed-keys request found (after_calls db) db refl done))

    -- A request that returned either reserved the key, which had no row, in a state with the other
    -- tables as they were, did its work on that reservation, and had its answer then stored, or returned what a completed row of the key holds and changed no table. The work
    -- does not write the table of keys.
    pub run_idempotent-Answered :
        (db after : Db) (body : Dict)
        → run_idempotent w request work db ≡ (ok body, after)
        → Answered work db after body
    unfolding run_idempotent perform_or_resolve
    run_idempotent-Answered db after body h = elim (attempt w request db) [
      | won free fresh e ↦
          performed db db after body refl free e (
            sym (bind_step (try_reserve w request) (perform_or_resolve w request work) db _ _ e)
            ∙ h)
      | lost e ↦
          bind_returned (resolve_existing w request) (answer_or_retry w request work)
            (after_calls db) after body
            (sym (bind_step (try_reserve w request) (perform_or_resolve w request work) db _ _ e)
              ∙ h)
            λ cache mid e2 k. resolved cache db mid after body e2 k
    ]
