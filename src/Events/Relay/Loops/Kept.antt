-- ===== src/Events/Relay/Loops/Kept.antt =====
-- An event is not lost: until it was sent its row stays.
use theclub_api.Prelude.{
  ℕ, suc, ◌*◌, ◌-◌, ◌≡◌, ◌⊎◌, inl, inr, refl, ◌∙◌, none, some, List, [], ◌∷◌, All,
}
use theclub_api.Exec.{◌>>=◌, transaction}
use theclub_api.Rows.{find_id}
use theclub_api.Config.{Settings}
use theclub_api.Db.{Db, OutboxEvent}
use theclub_api.World.{World, tick}
use theclub_api.Repositories.Outbox.{batch, purge_published, seconds}
use theclub_api.Repositories.Outbox.Batch.{purge_published_keeps}
use theclub_api.Events.Relay.{Producer, relay_batch_size, relay_once, purge_once}
use theclub_api.Events.Relay.Passes.{IsSameEvent, IsSentIn}
use theclub_api.Events.Relay.Delivery.{relay_once_keeps}
use theclub_api.Events.Relay.Loops.{Cycle, relays, purges, Background, cycle, background}

-- Other transactions leave the row of an id as it is.
abbrev pub OthersLeave : ℕ → Cycle → Type 0
OthersLeave k (relays locked failure others) =
    (db : Db) (row : OutboxEvent)
    → find_id k db.outbox ≡ some row
    → find_id k (others db).outbox ≡ some row
OthersLeave k (purges failure others) =
    (db : Db) (row : OutboxEvent)
    → find_id k db.outbox ≡ some row
    → find_id k (others db).outbox ≡ some row

-- The row of an id is there, with the event that it had, and is not published.
pub record IsPending (k : ℕ) (event : OutboxEvent) (db : Db) : Type 0 where
  pub row : OutboxEvent
  pub found : find_id k db.outbox ≡ some row
  pub same : IsSameEvent event row
  pub unpublished : row.published_at ≡ none

IsSameEvent-trans : {a b c : OutboxEvent} → IsSameEvent a b → IsSameEvent b c → IsSameEvent a c
IsSameEvent-trans s t = record {
  topic = t.topic ∙ s.topic;
  key = t.key ∙ s.key;
  payload = t.payload ∙ s.payload;
  created_at = t.created_at ∙ s.created_at;
}

module _ (w : World) (producer : Producer) (settings : Settings) (k : ℕ) (event : OutboxEvent) where
  -- A cycle of the relay sent the row, and the producer took it.
  abbrev pub SentIn : Cycle → Background → Type 0
  SentIn (relays locked none others) b =
      IsSentIn w producer (suc b.db.calls)
        (batch (w.now b.db.calls) locked relay_batch_size b.db.outbox) k
  SentIn (relays locked (some e) others) b = ⊥
  SentIn (purges failure others) b = ⊥

  abbrev pub SentDuring : List Cycle → Background → Type 0
  SentDuring [] b = ⊥
  SentDuring (c ∷ cycles) b = SentIn c b ⊎ SentDuring cycles (cycle w producer settings c b)

  purge_once_keeps :
      (db : Db) (row : OutboxEvent)
      → find_id k db.outbox ≡ some row
      → row.published_at ≡ none
      → find_id k (purge_once w settings.outbox_retention_hours db).1.outbox ≡ some row
  unfolding purge_once transaction purge_published ◌>>=◌
  purge_once_keeps db row found unpublished =
      let cutoff = w.now db.calls - seconds (settings.outbox_retention_hours * 3600) in
      purge_published_keeps cutoff (tick db) k row found (rw unpublished refl)

  cycle-IsPending :
      (c : Cycle) (b : Background)
      → OthersLeave k c
      → IsPending k event b.db
      → SentIn c b ⊎ IsPending k event (cycle w producer settings c b).db
  unfolding cycle
  cycle-IsPending (relays locked none others) b leave p =
      let (new, found, same, published) =
        relay_once_keeps w producer locked relay_batch_size b.db k p.row p.found in
      elim published [
        | inl kept ↦ inr (record {
          row = new;
          found = leave (relay_once w producer locked relay_batch_size b.db).1 new found;
          same = IsSameEvent-trans p.same same;
          unpublished = kept ∙ p.unpublished;
        })
        | inr sent ↦ inl sent
      ]
  cycle-IsPending (relays locked (some e) others) b leave p = inr (record {
    row = p.row;
    found = leave (tick b.db) p.row p.found;
    same = p.same;
    unpublished = p.unpublished;
  })
  cycle-IsPending (purges none others) b leave p = inr (record {
    row = p.row;
    found = leave _ p.row (purge_once_keeps b.db p.row p.found p.unpublished);
    same = p.same;
    unpublished = p.unpublished;
  })
  cycle-IsPending (purges (some e) others) b leave p = inr (record {
    row = p.row;
    found = leave (tick b.db) p.row p.found;
    same = p.same;
    unpublished = p.unpublished;
  })

  -- An event is sent before its row can go: an unpublished row of the outbox is, after any number of
  -- cycles of the relay and of the purge in any order, whichever of them fail, still there with the
  -- same event and unpublished, unless a cycle sent a row of its id and the producer took it. Between
  -- the cycles other transactions leave the row as it is.
  pub background_keeps :
      (cycles : List Cycle) (b : Background)
      → All (OthersLeave k) cycles
      → IsPending k event b.db
      → SentDuring cycles b ⊎ IsPending k event (background w producer settings cycles b).db
  unfolding background
  background_keeps [] b leave p = inr p
  background_keeps (c ∷ cycles) b leave p = elim (cycle-IsPending c b leave.0 p) [
    | inl sent ↦ inl (inl sent)
    | inr pending ↦ elim (background_keeps cycles (cycle w producer settings c b) leave.1 pending) [
      | inl later ↦ inl (inr later)
      | inr kept ↦ inr kept
    ]
  ]
