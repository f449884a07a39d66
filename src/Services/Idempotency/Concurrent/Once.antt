-- ===== src/Services/Idempotency/Concurrent/Once.antt =====
-- Of any number of requests with one key that run at once, one does its work.
use theclub_api.Prelude.{
  ℕ, ◌≡◌, refl, sym, ap, ◌∙◌, subst, false, ◌==◌, ==_iff, Bool-cases, inl, inr,
}
use theclub_api.Result.{in_progress}
use theclub_api.Exec.{Exec}
use theclub_api.Exec.Frames.{Frames}
use theclub_api.Json.{Dict}
use theclub_api.Domain.Fairness.{Bytes}
use theclub_api.Rows.{Table, select_none}
use theclub_api.Db.{Db, IdempotencyKey}
use theclub_api.World.{World}
use theclub_api.Repositories.IdempotencyKeys.{is_key}
use theclub_api.Services.Idempotency.{Request}
use theclub_api.Services.Idempotency.Reserved.{is_taken}
use theclub_api.Services.Idempotency.Replay.{keys}
use theclub_api.Services.Idempotency.Steps.{
  Phase, reserving, resolving, retrying, working, cleaning, done, answered, failed, advance,
}
use theclub_api.Services.Idempotency.Concurrent.{
  rows_of, variant, IsPrompt, Reachable, start, step, others, IsQuiet, IsOwner, IsSettled, Agrees,
  free, held, stored, rest_step,
}
use theclub_api.Services.Idempotency.Concurrent.Transitions.{
  AgreesAfter, reserve_step, resolve_step,
}
use theclub_api.Services.Idempotency.Concurrent.Work.{work_step, clean_step}

-- A request that has done its work is the one on whose account the row is completed.
done_owner :
    (rows : Table IdempotencyKey) (phases : ℕ → Phase) (i : ℕ) (b : Dict)
    → phases i ≡ done b
    → Agrees rows phases
    → (owner : ℕ) × ((j : ℕ) (c : Dict) → phases j ≡ done c → j ≡ owner)
done_owner rows phases i b at (free _ all) = absurd (subst IsQuiet at (all i))
done_owner rows phases i b at (held k row owner r pending mine all) =
    elim (Bool-cases (i == owner)) [
      | inl here ↦ absurd (subst (IsOwner k) (ap phases (sym ((==_iff i owner).0 here)) ∙ at) mine)
      | inr other ↦ absurd (subst IsQuiet at (all i other))
    ]
done_owner rows phases i b at (stored k row body owner r completed answer mine all) = (
  owner,
  λ j c at_j. elim (Bool-cases (j == owner)) [
    | inl here ↦ (==_iff j owner).0 here
    | inr other ↦ absurd (subst (IsSettled body) at_j (all j other))
  ],
)

answer_owner :
    (rows : Table IdempotencyKey) (phases : ℕ → Phase) (i : ℕ) (b : Dict)
    → phases i ≡ answered b
    → Agrees rows phases
    → (owner : ℕ) × (phases owner ≡ done b)
answer_owner rows phases i b at (free _ all) = absurd (subst IsQuiet at (all i))
answer_owner rows phases i b at (held k row owner r pending mine all) =
    elim (Bool-cases (i == owner)) [
      | inl here ↦ absurd (subst (IsOwner k) (ap phases (sym ((==_iff i owner).0 here)) ∙ at) mine)
      | inr other ↦ absurd (subst IsQuiet at (all i other))
    ]
answer_owner rows phases i b at (stored k row body owner r completed answer mine all) =
    elim (Bool-cases (i == owner)) [
      | inl here ↦
          let bad : answered b ≡ done body = sym at ∙ ap phases ((==_iff i owner).0 here) ∙ mine in
          absurd (cc bad)
      | inr other ↦ (owner, mine ∙ ap done (sym (subst (IsSettled body) at (all i other))))
    ]

module _ (w : World) (request : Request) (own : ℕ → Bytes × ℕ) (works : ℕ → Exec Db Dict) where
  step-Agrees :
      (db : Db) (phases : ℕ → Phase) (i : ℕ) (p : Phase)
      → Frames keys (works i)
      → phases i ≡ p
      → IsPrompt w request db
      → Agrees (rows_of request db) phases
      → AgreesAfter request phases i (advance w (variant request own i) (works i) p db)
  unfolding advance
  step-Agrees db phases i reserving keeps at prompt h =
      reserve_step w (variant request own i) phases i resolving db (subst IsQuiet (sym at) tt) tt h
  step-Agrees db phases i resolving keeps at prompt h =
      resolve_step w (variant request own i) phases i db (subst IsQuiet (sym at) tt) prompt h
  step-Agrees db phases i retrying keeps at prompt h =
      reserve_step w (variant request own i) phases i (failed in_progress) db
        (subst IsQuiet (sym at) tt) tt h
  step-Agrees db phases i (working id) keeps at prompt h =
      work_step w (variant request own i) phases i id (works i) db keeps at h
  step-Agrees db phases i (cleaning id x) keeps at prompt h =
      clean_step w (variant request own i) phases i id db x at h
  step-Agrees db phases i (done body) keeps at prompt h =
      rest_step (rows_of request db) phases i (done body) at h
  step-Agrees db phases i (answered body) keeps at prompt h =
      rest_step (rows_of request db) phases i (answered body) at h
  step-Agrees db phases i (failed x) keeps at prompt h =
      rest_step (rows_of request db) phases i (failed x) at h

  module _ (keeps : (i : ℕ) → Frames keys (works i)) (first : Db)
      (unused : is_taken request first ≡ false) where
    Reachable-Agrees :
        {db : Db} {phases : ℕ → Phase}
        → Reachable w request own works first db phases
        → Agrees (rows_of request db) phases
    Reachable-Agrees start =
        free (select_none (is_key request.user_id request.key) (keys first) unused) (λ j. tt)
    Reachable-Agrees (step {db} {phases} i before prompt) =
        step-Agrees db phases i (phases i) (keeps i) refl prompt (Reachable-Agrees before)
    Reachable-Agrees (others {db} {phases} other before same) =
        subst (λ rows. Agrees rows phases) (sym same) (Reachable-Agrees before)

    module _ (db : Db) (phases : ℕ → Phase)
        (reached : Reachable w request own works first db phases) where
      -- Of any number of requests of one user with one key, with equal or different bodies, that run
      -- at once or later, at most one does its work, however their transactions follow each other
      -- and whatever requests with other keys do in between, if the key was unused before, no work writes the table of keys, and at no
      -- transaction the row of the key has been pending for more than 30 seconds.
      pub Reachable-once : (i j : ℕ) (b c : Dict) → phases i ≡ done b → phases j ≡ done c → i ≡ j
      Reachable-once i j b c at_i at_j =
          let (owner, alone) =
            done_owner (rows_of request db) phases i b at_i (Reachable-Agrees reached) in
          alone i b at_i ∙ sym (alone j c at_j)

      -- Under the same conditions a request that is answered without having done its work is given
      -- the answer of one that has done it.
      pub Reachable-answer :
          (i : ℕ) (b : Dict) → phases i ≡ answered b → (owner : ℕ) × (phases owner ≡ done b)
      Reachable-answer i b at =
          answer_owner (rows_of request db) phases i b at (Reachable-Agrees reached)
