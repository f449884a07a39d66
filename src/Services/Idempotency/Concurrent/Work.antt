-- ===== src/Services/Idempotency/Concurrent/Work.antt =====
-- The transactions of a request that is at work keep the rows of its key and the requests in agreement.
use theclub_api.Prelude.{
  ℕ, ◌≡◌, refl, sym, ap, ◌∙◌, subst, Bool, false, ◌==◌, ==_iff, Bool-cases, inl, inr, [], ◌∷◌,
}
use theclub_api.Result.{Error, Result, ok, err}
use theclub_api.Exec.{Exec, continue, pure, ◌>>=◌, ◌>>◌}
use theclub_api.Exec.Frames.{Frames, framed}
use theclub_api.World.Transactions.{in_transaction, settle, begun, rolled_back}
use theclub_api.Json.{Dict}
use theclub_api.Rows.{
  Table, select, select-update_id, update_id, update_id_own, select-delete_id, delete_id,
  delete_id_own,
}
use theclub_api.Db.{Db, IdempotencyKey, IdempotencyStatus}
use theclub_api.World.{World}
use theclub_api.Repositories.IdempotencyKeys.{is_key, completed_row, mark_completed, delete}
use theclub_api.Services.Idempotency.{Request, work_and_mark}
use theclub_api.Services.Idempotency.Replay.{keys, with_body}
use theclub_api.Services.Idempotency.Steps.{
  Phase, reserving, resolving, retrying, working, cleaning, done, answered, failed, after_work,
  after_clean,
}
use theclub_api.Services.Idempotency.Concurrent.{
  rows_of, IsQuiet, IsOwner, IsSettled, Agrees, free, held, stored, set_here, set_owner,
  quiet_owner, quiet-IsSettled,
}
use theclub_api.Services.Idempotency.Concurrent.Transitions.{AgreesAfter}

owner_unique : (a b : ℕ) (p : Phase) → IsOwner a p → IsOwner b p → a ≡ b
owner_unique a b (working x) h k = sym h ∙ k
owner_unique a b (cleaning x e) h k = sym h ∙ k
owner_unique a b reserving h k = absurd h
owner_unique a b resolving h k = absurd h
owner_unique a b retrying h k = absurd h
owner_unique a b (done body) h k = absurd h
owner_unique a b (answered body) h k = absurd h
owner_unique a b (failed e) h k = absurd h

settled_owner : (body : Dict) (id : ℕ) (p : Phase) → IsSettled body p → IsOwner id p → ⊥
settled_owner body id (answered x) h k = k
settled_owner body id (working x) h k = h
settled_owner body id (cleaning x e) h k = h
settled_owner body id reserving h k = k
settled_owner body id resolving h k = k
settled_owner body id retrying h k = k
settled_owner body id (done x) h k = k
settled_owner body id (failed e) h k = k

-- The pending row of a request at work, and the others, which are not.
record Holds (rows : Table IdempotencyKey) (phases : ℕ → Phase) (i id : ℕ) : Type 0 where
  row : IdempotencyKey
  only : rows ≡ (id, row) ∷ []
  pending : row.status ≡ IdempotencyStatus.pending
  quiet : (j : ℕ) → (j == i) ≡ false → IsQuiet (phases j)

at_work-Holds :
    (rows : Table IdempotencyKey) (phases : ℕ → Phase) (i id : ℕ)
    → IsOwner id (phases i)
    → Agrees rows phases
    → Holds rows phases i id
at_work-Holds rows phases i id busy (free _ all) = absurd (quiet_owner id (phases i) (all i) busy)
at_work-Holds rows phases i id busy (held k row owner r pending mine all) =
    elim (Bool-cases (i == owner)) [
      | inl here ↦
          let same : owner ≡ i = sym ((==_iff i owner).0 here) in
          let own : IsOwner k (phases i) = subst (λ o. IsOwner k (phases o)) same mine in
          record {
            row = row;
            only = r ∙ (λ n. (owner_unique k id (phases i) own busy n, row) ∷ []);
            pending = pending;
            quiet = λ j other. all j (subst (λ o. (j == o) ≡ false) (sym same) other);
          }
      | inr other ↦ absurd (quiet_owner id (phases i) (all i other) busy)
    ]
at_work-Holds rows phases i id busy (stored k row body owner r completed answer mine all) =
    elim (Bool-cases (i == owner)) [
      | inl here ↦
          let same : phases i ≡ done body = ap phases ((==_iff i owner).0 here) ∙ mine in
          absurd (subst (IsOwner id) same busy)
      | inr other ↦ absurd (settled_owner body id (phases i) (all i other) busy)
    ]

module _ (w : World) (request : Request) (phases : ℕ → Phase) (i id : ℕ) where
  work_committed :
      (work : Exec Db Dict) (db after : Db) (body : Dict)
      → work (begun w db) ≡ (ok body, after)
      → in_transaction w (work_and_mark w request work id) db ≡ (ok body, with_body id body after)
  unfolding in_transaction work_and_mark mark_completed ◌>>=◌
  work_committed work db after body e =
      ap (λ r. settle db (continue r λ b. mark_completed id b >> pure b)) e

  work_rolled_back :
      (work : Exec Db Dict) (db after : Db) (x : Error)
      → work (begun w db) ≡ (err x, after)
      → in_transaction w (work_and_mark w request work id) db ≡ (err x, rolled_back db after)
  unfolding in_transaction work_and_mark ◌>>=◌
  work_rolled_back work db after x e =
      ap (λ r. settle db (continue r λ b. mark_completed id b >> pure b)) e

  pub work_step :
      (work : Exec Db Dict) (db : Db)
      → Frames keys work
      → phases i ≡ working id
      → Agrees (rows_of request db) phases
      → AgreesAfter request phases i
          (after_work id (in_transaction w (work_and_mark w request work id) db))
  work_step work db keeps at h = go (work (begun w db)) refl
    where
      mine : IdempotencyKey → Bool
      mine = is_key request.user_id request.key

      holds : Holds (rows_of request db) phases i id
      holds = at_work-Holds (rows_of request db) phases i id (subst (IsOwner id) (sym at) refl) h

      go :
          (r : Result Dict × Db)
          → work (begun w db) ≡ r
          → AgreesAfter request phases i
              (after_work id (in_transaction w (work_and_mark w request work id) db))
      go (ok body, after) e =
          subst (λ r. AgreesAfter request phases i (after_work id r))
            (sym (work_committed work db after body e))
            (stored id (completed_row body holds.row) body i
              (select-update_id mine id (completed_row body) (keys after) (λ v. refl)
                ∙ ap (λ rows. update_id id (completed_row body) (select mine rows)) (framed keeps e)
                ∙ ap (update_id id (completed_row body)) holds.only
                ∙ update_id_own id (completed_row body) holds.row)
              refl refl (set_here i (done body) phases)
              (set_owner (IsSettled body) i (done body) phases
                (λ j other. quiet-IsSettled body (phases j) (holds.quiet j other))))
      go (err x, after) e =
          subst (λ r. AgreesAfter request phases i (after_work id r))
            (sym (work_rolled_back work db after x e))
            (held id holds.row i holds.only holds.pending
              (subst (IsOwner id) (sym (set_here i (cleaning id x) phases)) refl)
              (set_owner IsQuiet i (cleaning id x) phases holds.quiet))

  pub clean_step :
      (db : Db) (x : Error)
      → phases i ≡ cleaning id x
      → Agrees (rows_of request db) phases
      → AgreesAfter request phases i (after_clean x (in_transaction w (delete id) db))
  unfolding in_transaction delete
  clean_step db x at h =
      let holds =
        at_work-Holds (rows_of request db) phases i id (subst (IsOwner id) (sym at) refl) h in
      let mine = is_key request.user_id request.key in
      free
        (select-delete_id mine id (keys db)
          ∙ ap (delete_id id) holds.only
          ∙ delete_id_own id holds.row)
        (λ j. elim (Bool-cases (j == i)) [
          | inl here ↦ rw here tt
          | inr other ↦ rw other (holds.quiet j other)
        ])
