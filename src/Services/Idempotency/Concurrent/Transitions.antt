-- ===== src/Services/Idempotency/Concurrent/Transitions.antt =====
-- Each transaction of a request keeps the rows of its key and the requests in agreement.
use theclub_api.Prelude.{
  ℕ, ◌≡◌, refl, sym, ◌∙◌, subst, true, false, Bool-cases, inl, inr, Option, none, some, [], ◌∷◌,
}
use theclub_api.Result.{Result, ok, err, in_progress, key_conflict}
use theclub_api.Exec.{◌>>=◌}
use theclub_api.Json.{Dict}
use theclub_api.Rows.{select_none, select-append_row}
use theclub_api.Db.{Db, IdempotencyKey, IdempotencyStatus}
use theclub_api.World.{World, tick}
use theclub_api.Repositories.RefreshTokens.{eq_bytes}
use theclub_api.Repositories.IdempotencyKeys.{is_key, get}
use theclub_api.Services.Idempotency.{
  Request, try_reserve, answer_status, answer_existing, reclaim, resolve_existing,
}
use theclub_api.Services.Idempotency.Reserved.{
  is_taken, new_row, new_id, won, lost, attempt, is_taken-select,
}
use theclub_api.Services.Idempotency.Replay.{keys, is_key-new_row}
use theclub_api.Services.Idempotency.Steps.{
  Phase, retrying, working, done, answered, failed, after_reserve, after_resolve,
}
use theclub_api.Services.Idempotency.Concurrent.{
  rows_of, set_phase, IsPrompt, IsQuiet, IsOwner, IsSettled, Agrees, free, held, stored, set_here,
  set_others, set_owner, set_kept, quiet_step, quiet_done,
}

-- What a request that has moved to a phase and left a state does to the agreement.
abbrev pub AgreesAfter : Request → (ℕ → Phase) → ℕ → Phase × Db → Type 0
AgreesAfter request phases i (p, db) = Agrees (rows_of request db) (set_phase i p phases)

module _ (w : World) (request : Request) (phases : ℕ → Phase) (i : ℕ) where
  only_free :
      (db : Db)
      → is_taken request db ≡ false
      → Agrees (rows_of request db) phases
      → (j : ℕ) → IsQuiet (phases j)
  only_free db unused (free _ all) = all
  only_free db unused (held id row owner r _ _ _) =
      let bad : true ≡ false = sym (is_taken-select request db (id, row) r) ∙ unused in
      absurd (cc bad)
  only_free db unused (stored id row body owner r _ _ _ _) =
      let bad : true ≡ false = sym (is_taken-select request db (id, row) r) ∙ unused in
      absurd (cc bad)

  pub reserve_step :
      (next : Phase) (db : Db)
      → IsQuiet (phases i)
      → IsQuiet next
      → Agrees (rows_of request db) phases
      → AgreesAfter request phases i (after_reserve next (try_reserve w request db))
  reserve_step next db before after h = elim (attempt w request db) [
    | won unused fresh e ↦
        let mine = is_key request.user_id request.key in
        let all = only_free db unused h in
        subst (λ r. AgreesAfter request phases i (after_reserve next r)) (sym e)
          (held (new_id w db) (new_row w request db) i
            (select-append_row mine (keys db) (new_id w db, new_row w request db)
              (select_none mine (keys db) unused) (is_key-new_row w request db))
            refl
            (subst (IsOwner (new_id w db)) (sym (set_here i (working (new_id w db)) phases)) refl)
            (set_owner IsQuiet i (working (new_id w db)) phases (λ j other. all j)))
    | lost e ↦
        subst (λ r. AgreesAfter request phases i (after_reserve next r)) (sym e)
          (quiet_step (rows_of request db) phases i next before after h)
  ]

  -- What a request finds that looks for the row.
  resolve_free : (db : Db) → rows_of request db ≡ [] → resolve_existing w request db ≡ (ok none, db)
  unfolding resolve_existing get answer_existing ◌>>=◌
  resolve_free db r = rw r refl

  resolve_other :
      (db : Db) (id : ℕ) (row : IdempotencyKey)
      → rows_of request db ≡ (id, row) ∷ []
      → eq_bytes row.request_hash request.request_hash ≡ false
      → resolve_existing w request db ≡ (err key_conflict, db)
  unfolding resolve_existing get answer_existing ◌>>=◌
  resolve_other db id row r other = rw (r, other) refl

  resolve_held :
      (db : Db) (id : ℕ) (row : IdempotencyKey)
      → rows_of request db ≡ (id, row) ∷ []
      → eq_bytes row.request_hash request.request_hash ≡ true
      → row.status ≡ IdempotencyStatus.pending
      → IsPrompt w request db
      → resolve_existing w request db ≡ (err in_progress, tick db)
  unfolding resolve_existing get answer_existing answer_status reclaim ◌>>=◌
  resolve_held db id row r same pending prompt = rw (r, same, pending, prompt id row r pending) refl

  resolve_stored :
      (db : Db) (id : ℕ) (row : IdempotencyKey) (body : Dict)
      → rows_of request db ≡ (id, row) ∷ []
      → eq_bytes row.request_hash request.request_hash ≡ true
      → row.status ≡ IdempotencyStatus.completed
      → row.response_body ≡ some body
      → resolve_existing w request db ≡ (ok (some body), db)
  unfolding resolve_existing get answer_existing answer_status ◌>>=◌
  resolve_stored db id row body r same completed answer = rw (r, same, completed, answer) refl

  pub resolve_step :
      (db : Db)
      → IsQuiet (phases i)
      → IsPrompt w request db
      → Agrees (rows_of request db) phases
      → AgreesAfter request phases i (after_resolve (resolve_existing w request db))
  resolve_step db before prompt h = go h
    where
      moved :
          (r : Result (Option Dict) × Db)
          → resolve_existing w request db ≡ r
          → AgreesAfter request phases i (after_resolve r)
          → AgreesAfter request phases i (after_resolve (resolve_existing w request db))
      moved r e k = subst (λ s. AgreesAfter request phases i (after_resolve s)) (sym e) k

      stay : (p : Phase) → IsQuiet p → Agrees (rows_of request db) (set_phase i p phases)
      stay p q = quiet_step (rows_of request db) phases i p before q h

      go :
          Agrees (rows_of request db) phases
          → AgreesAfter request phases i (after_resolve (resolve_existing w request db))
      go (free r _) = moved (ok none, db) (resolve_free db r) (stay retrying tt)
      go (held id row owner r pending mine all) =
          elim (Bool-cases (eq_bytes row.request_hash request.request_hash)) [
            | inl same ↦
                moved (err in_progress, tick db) (resolve_held db id row r same pending prompt)
                  (stay (failed in_progress) tt)
            | inr other ↦
                moved (err key_conflict, db) (resolve_other db id row r other)
                  (stay (failed key_conflict) tt)
          ]
      go (stored id row body owner r completed answer mine all) =
          elim (Bool-cases (eq_bytes row.request_hash request.request_hash)) [
            | inl same ↦
                moved (ok (some body), db) (resolve_stored db id row body r same completed answer)
                  (stored id row body owner r completed answer
                    (set_kept (λ q. q ≡ done body) i owner (answered body) phases
                      (quiet_done (phases i) body before) mine)
                    (set_others (IsSettled body) i owner (answered body) phases refl all))
            | inr other ↦
                moved (err key_conflict, db) (resolve_other db id row r other)
                  (stay (failed key_conflict) tt)
          ]
