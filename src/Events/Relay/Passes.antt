-- ===== src/Events/Relay/Passes.antt =====
-- What the relay does to each row of a batch, and to the rows of the outbox as it comes to them.
use theclub_api.Prelude.{
  suc, subst, ℕ, ◌+◌, ◌≡◌, refl, ap, ◌∙◌, ◌⊎◌, inl, inr, String, none, some, [], ◌∷◌, length, arith,
  ◌==◌, ==_iff, Bool-cases, Option-cases,
}
use theclub_api.Result.{ok}
use theclub_api.Exec.{bind_ok, pure, ◌>>=◌}
use theclub_api.Rows.{Table, find_id, update_id, find_id-update_id}
use theclub_api.Db.{Db, OutboxEvent}
use theclub_api.World.{World, tick}
use theclub_api.Repositories.Outbox.{mark_published, mark_failed, published, failed}
use theclub_api.Events.Relay.{Producer, relay_row, relay_rows, relay_batch}

-- The content of a row, which the relay never touches.
pub record IsSameEvent (old new : OutboxEvent) : Type 0 where
  pub topic : new.topic ≡ old.topic
  pub key : new.key ≡ old.key
  pub payload : new.payload ≡ old.payload
  pub created_at : new.created_at ≡ old.created_at

-- The rows of a batch hold one of this id.
abbrev pub IsIn : Table OutboxEvent → ℕ → Type 0
IsIn [] k = ⊥
IsIn ((id, row) ∷ rows) k = (id ≡ k) ⊎ IsIn rows k

-- The row was published, or is to be tried again at some time
abbrev pub IsTried : OutboxEvent → Type 0
IsTried row = ((t : ℕ) × (row.published_at ≡ some t)) ⊎ ((t : ℕ) × (row.next_attempt_at ≡ some t))

module _ (w : World) (producer : Producer) where
  -- the producer took the row at this call
  abbrev pub IsTaken : ℕ → OutboxEvent → Type 0
  IsTaken call row = producer call row.topic row.key row.payload ≡ none

  -- the rows of a batch hold one of this id that the producer took when it came to it: the first row is
  -- sent at call `call`, and each row takes two calls, the send and the clock
  abbrev pub IsSentIn : ℕ → Table OutboxEvent → ℕ → Type 0
  IsSentIn call [] k = ⊥
  IsSentIn call ((id, row) ∷ rows) k =
      ((id ≡ k) × IsTaken call row) ⊎ IsSentIn (suc (suc call)) rows k

  -- what is written to a row: that it is published, after a confirmed send, or that it has failed
  abbrev Marked : ℕ → OutboxEvent → OutboxEvent → OutboxEvent → Type 0
  Marked call row old new =
      (IsTaken call row × (t : ℕ) × (new ≡ published t old))
      ⊎ ((t : ℕ) × (error : String) × (new ≡ failed t (row.attempts + 1) error old))

  -- one row of a batch: its statement never raises and updates that row alone
  record RowStep (r : ℕ × OutboxEvent) (db : Db) : Type 0 where
    pub write : OutboxEvent → OutboxEvent
    pub returns : (relay_row w producer r db).0 ≡ ok tt
    pub outbox : (relay_row w producer r db).1.outbox ≡ update_id r.0 write db.outbox
    pub calls : (relay_row w producer r db).1.calls ≡ suc (suc db.calls)
    pub marked : (o : OutboxEvent) → Marked db.calls r.1 o (write o)

  relay-RowStep : (r : ℕ × OutboxEvent) (db : Db) → RowStep r db
  unfolding relay_row mark_published mark_failed ◌>>=◌
  relay-RowStep (id, row) db =
      elim (Option-cases (producer db.calls row.topic row.key row.payload)) [
        | inl sent ↦ record {
          write = published (w.now (tick db).calls);
          returns = rw sent refl;
          outbox = rw sent refl;
          calls = rw sent refl;
          marked = λ o. inl (sent, w.now (tick db).calls, refl);
        }
        | inr (error, refused) ↦ record {
          write = failed (w.now (tick db).calls) (row.attempts + 1) error;
          returns = rw refused refl;
          outbox = rw refused refl;
          calls = rw refused refl;
          marked = λ o. inr (w.now (tick db).calls, error, refl);
        }
      ]

  -- a row before and after the rows of a batch have been relayed
  pub record Relayed (call : ℕ) (rows : Table OutboxEvent) (k : ℕ) (old : OutboxEvent) (after : Db)
      : Type 0 where
    pub new : OutboxEvent
    pub found : find_id k after.outbox ≡ some new
    pub same : IsSameEvent old new
    pub published_at : (new.published_at ≡ old.published_at) ⊎ IsSentIn call rows k
    pub tried : IsIn rows k ⊎ IsTried old → IsTried new
    pub left : (IsIn rows k → ⊥) → new ≡ old

  Relayed-none :
      (call k : ℕ) (old : OutboxEvent) (db : Db)
      → find_id k db.outbox ≡ some old
      → Relayed call [] k old db
  Relayed-none call k old db found = record {
    new = old;
    found = found;
    same = record { topic = refl; key = refl; payload = refl; created_at = refl };
    published_at = inl refl;
    tried = λ h. elim h [ inl x ↦ absurd x | inr x ↦ x ];
    left = λ out. refl;
  }

  -- one step, then the rest
  Relayed-next :
      (call : ℕ) (r : ℕ × OutboxEvent) (rows : Table OutboxEvent) (k : ℕ) (old mid : OutboxEvent)
      (after : Db)
      → IsSameEvent old mid
      → (mid.published_at ≡ old.published_at) ⊎ ((r.0 ≡ k) × IsTaken call r.1)
      → ((r.0 ≡ k) ⊎ IsTried old → IsTried mid)
      → ((r.0 ≡ k → ⊥) → mid ≡ old)
      → Relayed (suc (suc call)) rows k mid after
      → Relayed call (r ∷ rows) k old after
  Relayed-next call r rows k old mid after same published_mid tried left rest = record {
    new = rest.new;
    found = rest.found;
    same = record {
      topic = rest.same.topic ∙ same.topic;
      key = rest.same.key ∙ same.key;
      payload = rest.same.payload ∙ same.payload;
      created_at = rest.same.created_at ∙ same.created_at;
    };
    published_at = elim rest.published_at [
      | inl kept ↦ elim published_mid [
        | inl kept_mid ↦ inl (kept ∙ kept_mid)
        | inr sent ↦ inr (inl sent)
      ]
      | inr sent ↦ inr (inr sent)
    ];
    tried = λ h. rest.tried (elim h [
      | inl (inl here) ↦ inr (tried (inl here))
      | inl (inr later) ↦ inl later
      | inr before ↦ inr (tried (inr before))
    ]);
    left = λ out. rest.left (λ x. out (inr x)) ∙ left (λ x. out (inl x));
  }

  Marked-mid :
      (call : ℕ) (row old mid : OutboxEvent)
      → Marked call row old mid
      → IsSameEvent old mid
        × ((mid.published_at ≡ old.published_at) ⊎ IsTaken call row)
        × IsTried mid
  Marked-mid call row old mid (inl (sent, t, e)) = (
    rw e (record { topic = refl; key = refl; payload = refl; created_at = refl }),
    inr sent,
    inl (t, rw e refl),
  )
  Marked-mid call row old mid (inr (t, error, e)) = (
    rw e (record { topic = refl; key = refl; payload = refl; created_at = refl }),
    inl (rw e refl),
    inr (_, ap (λ (o : OutboxEvent). o.next_attempt_at) e),
  )

  -- every pass over a batch returns, and leaves each row so
  relay_rows-Relayed :
      (rows : Table OutboxEvent) (db : Db)
      → ((relay_rows w producer rows db).0 ≡ ok tt)
        × ((k : ℕ) (old : OutboxEvent)
            → find_id k db.outbox ≡ some old
            → Relayed db.calls rows k old (relay_rows w producer rows db).1)
  unfolding relay_rows
  relay_rows-Relayed [] db = (refl, λ k old found. Relayed-none db.calls k old db found)
  relay_rows-Relayed (r ∷ rows) db =
      let step = relay-RowStep r db in
      let mid = (relay_row w producer r db).1 in
      let next =
        bind_ok (relay_row w producer r) (λ _. relay_rows w producer rows) db tt step.returns in
      let (done, rest) = relay_rows-Relayed rows mid in
      let resumed : (k : ℕ) (old : OutboxEvent)
          → find_id k mid.outbox ≡ some old
          → Relayed (suc (suc db.calls)) rows k old (relay_rows w producer rows mid).1 =
        λ k old found.
          subst (λ call. Relayed call rows k old (relay_rows w producer rows mid).1) step.calls
            (rest k old found) in
      (
        ap (λ x. x.0) next ∙ done,
        λ k old found. rw next (elim (Bool-cases (r.0 == k)) [
          | inl here ↦
              let same_id = (==_iff r.0 k).0 here in
              let found_mid : find_id k mid.outbox ≡ some (step.write old) =
                ap (find_id k) step.outbox
                ∙ find_id-update_id k r.0 step.write db.outbox
                ∙ (rw (here, found) refl) in
              let (same, sent, tried) =
                Marked-mid db.calls r.1 old (step.write old) (step.marked old) in
              Relayed-next db.calls r rows k old (step.write old) _ same
                (elim sent [ inl x ↦ inl x | inr x ↦ inr (same_id, x) ]) (λ h. tried)
                (λ out. absurd (out same_id)) (resumed k (step.write old) found_mid)
          | inr other ↦
              let found_mid : find_id k mid.outbox ≡ some old =
                ap (find_id k) step.outbox
                ∙ find_id-update_id k r.0 step.write db.outbox
                ∙ (rw (other, found) refl) in
              let different : r.0 ≡ k → ⊥ = λ e. ground arith in
              Relayed-next db.calls r rows k old old _
                (record { topic = refl; key = refl; payload = refl; created_at = refl }) (inl refl)
                (λ h. elim h [ inl e ↦ absurd (different e) | inr x ↦ x ]) (λ out. refl)
                (resumed k old found_mid)
        ]),
      )

  pub relay_batch-Relayed :
      (rows : Table OutboxEvent) (db : Db)
      → ((relay_batch w producer rows db).0 ≡ ok (length rows))
        × ((k : ℕ) (old : OutboxEvent)
            → find_id k db.outbox ≡ some old
            → Relayed db.calls rows k old (relay_batch w producer rows db).1)
  relay_batch-Relayed [] db = (refl, λ k old found. Relayed-none db.calls k old db found)
  relay_batch-Relayed (r ∷ rows) db =
      let (done, rest) = relay_rows-Relayed (r ∷ rows) db in
      let next =
        bind_ok (relay_rows w producer (r ∷ rows)) (λ _. pure (length (r ∷ rows))) db tt done in
      (ap (λ x. x.0) next, λ k old found. rw next (rest k old found))
