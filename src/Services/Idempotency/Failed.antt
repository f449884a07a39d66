-- ===== src/Services/Idempotency/Failed.antt =====
-- A request with an Idempotency-Key that fails leaves nothing behind.
use theclub_api.Prelude.{ℕ, ◌≡◌, refl, sym, ap, ◌∙◌, false, Option, none, some}
use theclub_api.Result.{Error, Result, ok, err}
use theclub_api.Exec.{Exec, bind_raised, bind_step, ◌>>=◌}
use theclub_api.Exec.Frames.{framed}
use theclub_api.World.Transactions.{in_transaction, settle}
use theclub_api.Json.{Dict}
use theclub_api.Rows.{find_id, delete_id, delete_id-append_row, select_none}
use theclub_api.Db.{Db}
use theclub_api.World.{World}
use theclub_api.Repositories.IdempotencyKeys.{is_key, get, delete}
use theclub_api.Services.Idempotency.{
  Request, try_reserve, answer_existing, resolve_existing, forget_row, perform, perform_or_refuse,
  answer_or_retry, perform_or_resolve, run_idempotent,
}
use theclub_api.Services.Idempotency.Reserved.{
  is_taken, after_calls, with_row, new_id, won, lost, attempt,
}
use theclub_api.Services.Idempotency.Replay.{keys}
use theclub_api.Services.Idempotency.Outcome.{rest, resolve_existing-Frames}

module _ (w : World) (request : Request) where
  forget_settle-err :
      (id : ℕ) (before after : Db) (e : Error) (r : Result Dict × Db)
      → forget_row w request id (settle before r) ≡ (err e, after)
      → (rest after ≡ rest before) × (keys after ≡ delete_id id (keys before))
  unfolding in_transaction delete
  forget_settle-err id before after e (ok b, t) h =
      let bad : ok b ≡ err e = ap (λ r. r.0) h in absurd (cc bad)
  forget_settle-err id before after e (err x, t) h =
      (ap (λ r. rest r.1) (sym h), ap (λ r. keys r.1) (sym h))

  -- What raised anywhere in the work takes back the work and the reservation.
  perform-eq-err :
      (work : Exec Db Dict) (id : ℕ) (mid after : Db) (e : Error)
      → perform w request work id mid ≡ (err e, after)
      → (rest after ≡ rest mid) × (keys after ≡ delete_id id (keys mid))
  unfolding perform in_transaction
  perform-eq-err work id mid after e h = forget_settle-err id mid after e _ h

  module _ (work : Exec Db Dict) (db after : Db) (e : Error) where
    reserved-failed :
        (base : Db)
        → rest base ≡ rest db
        → (find_id (new_id w base) (keys base) ≡ none)
        → perform w request work (new_id w base) (with_row w request base) ≡ (err e, after)
        → (rest after ≡ rest db) × (keys after ≡ keys base)
    reserved-failed base same fresh h =
        let (others, mine) =
          perform-eq-err work (new_id w base) (with_row w request base) after e h in
        (others ∙ same, mine ∙ delete_id-append_row (new_id w base) _ (keys base) fresh)

    retried-failed :
        (base : Db)
        → rest base ≡ rest db
        → (try_reserve w request >>= perform_or_refuse w request work) base ≡ (err e, after)
        → (rest after ≡ rest db) × (keys after ≡ keys base)
    unfolding perform_or_refuse
    retried-failed base same h = elim (attempt w request base) [
      | won free fresh s ↦ reserved-failed base same fresh (
          sym (bind_step (try_reserve w request) (perform_or_refuse w request work) base _ _ s) ∙ h)
      | lost s ↦
          let left : _ ≡ (err e, after) =
            sym (bind_step (try_reserve w request) (perform_or_refuse w request work) base _ _ s)
            ∙ h in
          (ap (λ r. rest r.1) (sym left) ∙ same, ap (λ r. keys r.1) (sym left))
    ]

    resolved-failed :
        (cache : Option Dict) (base : Db)
        → rest base ≡ rest db
        → answer_or_retry w request work cache base ≡ (err e, after)
        → (rest after ≡ rest db) × (keys after ≡ keys base)
    unfolding answer_or_retry
    resolved-failed none base same h = retried-failed base same h
    resolved-failed (some found) base same h =
        let bad : ok found ≡ err e = ap (λ r. r.0) h in absurd (cc bad)

    -- A request with an Idempotency-Key that raised has changed no table but that of the keys,
    -- whatever its work had written before.
    pub run_idempotent-rolled_back :
        run_idempotent w request work db ≡ (err e, after) → rest after ≡ rest db
    unfolding run_idempotent perform_or_resolve
    run_idempotent-rolled_back h = elim (attempt w request db) [
      | won free fresh s ↦
          (reserved-failed db refl fresh (
            sym (bind_step (try_reserve w request) (perform_or_resolve w request work) db _ _ s)
            ∙ h)).0
      | lost s ↦
          bind_raised (resolve_existing w request) (answer_or_retry w request work) (after_calls db)
            after e
            (sym (bind_step (try_reserve w request) (perform_or_resolve w request work) db _ _ s)
              ∙ h)
            (framed (resolve_existing-Frames w request))
            λ cache mid r k.
              (resolved-failed cache mid (framed (resolve_existing-Frames w request) r) k).0
    ]

    resolve_existing-free :
        (base : Db)
        → is_taken request base ≡ false
        → resolve_existing w request base ≡ (ok none, base)
    unfolding resolve_existing get answer_existing ◌>>=◌
    resolve_existing-free base free =
        rw (select_none (is_key request.user_id request.key) (keys base) free) refl

    -- If in addition the key was new, it is free again: the table of keys is what it was.
    pub run_idempotent-released :
        is_taken request db ≡ false
        → run_idempotent w request work db ≡ (err e, after)
        → keys after ≡ keys db
    unfolding run_idempotent perform_or_resolve
    run_idempotent-released free h = elim (attempt w request db) [
      | won _ fresh s ↦
          (reserved-failed db refl fresh (
            sym (bind_step (try_reserve w request) (perform_or_resolve w request work) db _ _ s)
            ∙ h)).1
      | lost s ↦
          (resolved-failed none (after_calls db) refl (
            sym (
              bind_step (resolve_existing w request) (answer_or_retry w request work)
                (after_calls db) (after_calls db) none
                (resolve_existing-free (after_calls db) free))
            ∙ sym (bind_step (try_reserve w request) (perform_or_resolve w request work) db _ _ s)
            ∙ h)).1
    ]
