-- ===== src/Events/Relay/Delivery.antt =====
-- What one pass of the relay does to the rows of the outbox.
use theclub_api.Prelude.{suc, ℕ, ◌≡◌, refl, ap, ◌∙◌, ◌⊎◌, inl, some, length, Bool}
use theclub_api.Result.{ok}
use theclub_api.Exec.{bind_ok, transaction_ok, ◌>>=◌}
use theclub_api.Rows.{find_id}
use theclub_api.Db.{Db, OutboxEvent}
use theclub_api.World.{World, tick}
use theclub_api.Repositories.Outbox.{batch, lock_unpublished_batch}
use theclub_api.Events.Relay.{Producer, relay_batch, relay_once}
use theclub_api.Events.Relay.Passes.{
  IsSameEvent, IsIn, IsTried, IsSentIn, Relayed, relay_batch-Relayed,
}

module _ (w : World) (producer : Producer) where
  -- A run of `relay_once` is the pass over its batch.
  relay_once_run :
      (locked : ℕ → Bool) (limit : ℕ) (db : Db)
      → relay_once w producer locked limit db ≡ (
        ok (length (batch (w.now db.calls) locked limit db.outbox)),
        (relay_batch w producer (batch (w.now db.calls) locked limit db.outbox) (tick db)).1,
      )
  unfolding relay_once lock_unpublished_batch ◌>>=◌
  relay_once_run locked limit db =
      let lock = lock_unpublished_batch w locked limit in
      let rows = batch (w.now db.calls) locked limit db.outbox in
      let (done, relayed) = relay_batch-Relayed w producer rows (tick db) in
      let next = bind_ok lock (relay_batch w producer) db rows refl in
      transaction_ok (lock >>= relay_batch w producer) db (length rows) (ap (λ x. x.0) next ∙ done)
      ∙ (λ i. (ok (length rows), (next i).1))

  module _ (locked : ℕ → Bool) (limit : ℕ) (db : Db) (k : ℕ) (old : OutboxEvent)
      (found : find_id k db.outbox ≡ some old) where
    relay_once-Relayed :
        Relayed w producer
          (suc db.calls)
          (batch (w.now db.calls) locked limit db.outbox)
          k
          old
          (relay_once w producer locked limit db).1
    relay_once-Relayed =
        rw (relay_once_run locked limit db)
          ((relay_batch-Relayed w producer _ (tick db)).1 k old found)

    -- A row of the outbox is still there after a run of `relay_once`, with its topic, key, payload and
    -- time; and its publication time is the same, unless the batch holds a row of its id that the
    -- producer took when the run sent it: what is marked as published was sent.
    pub relay_once_keeps :
        (new : OutboxEvent) × (find_id k (relay_once w producer locked limit db).1.outbox
          ≡ some new)
        × IsSameEvent old new
        × ((new.published_at ≡ old.published_at)
            ⊎ IsSentIn w producer (suc db.calls) (batch (w.now db.calls) locked limit db.outbox) k)
    relay_once_keeps = let r = relay_once-Relayed in (r.new, r.found, r.same, r.published_at)

    -- A row of the batch is published after a run of `relay_once`, or due at a time that is set.
    pub relay_once-IsTried :
        IsIn (batch (w.now db.calls) locked limit db.outbox) k
        → (new : OutboxEvent) × (find_id k (relay_once w producer locked limit db).1.outbox
            ≡ some new)
          × IsTried new
    relay_once-IsTried there = let r = relay_once-Relayed in (r.new, r.found, r.tried (inl there))

    -- A row that is not in the batch is as it was after a run of `relay_once`.
    pub relay_once_left :
        (IsIn (batch (w.now db.calls) locked limit db.outbox) k → ⊥)
        → find_id k (relay_once w producer locked limit db).1.outbox ≡ some old
    relay_once_left out = let r = relay_once-Relayed in r.found ∙ ap some (r.left out)
