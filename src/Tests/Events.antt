-- ===== src/Tests/Events.antt =====
-- A pass of the relay over an outbox with a published row, one that is sent and one that fails.
use theclub_api.Prelude.{
  ℕ, refl, ◌⊎◌, Bool, false, List, ◌==◌, if◌then◌else◌, some, none, [], ◌∷◌, pos, arith,
}
use theclub_api.Result.{key_error}
use theclub_api.Db.{Db, OutboxEvent}
use theclub_api.Events.Schemas.{EventEnvelope, WalletTransactionKind, wallet_transaction}
use theclub_api.Repositories.Outbox.{batch, order_by_age, insert_by_age}
use theclub_api.Events.Relay.{Producer}
use theclub_api.Events.Relay.Passes.{IsIn}
use theclub_api.Events.Relay.Loops.{Cycle, relays, purges, Background, background}
use theclub_api.Events.Relay.Loops.Kept.{IsPending, SentDuring, background_keeps}
use theclub_api.Tests.Data.{world, settings, db}

abbrev envelope : EventEnvelope
envelope = record {
  event_id = 50;
  occurred_at = 4000000;
  idempotency_key = none;
  event_data = wallet_transaction (record {
    transaction_id = 1;
    user_id = 7;
    wallet_id = 5;
    kind = WalletTransactionKind.deposit;
    amount_minor = pos 1000;
    balance_after_minor = pos 1000;
    currency = "EUR";
    ref_type = none;
    ref_id = none;
  });
}

abbrev event : ℕ → OutboxEvent
event key = record {
  topic = "theclub.wallet";
  key = key;
  payload = envelope;
  created_at = 4000000;
  published_at = none;
  attempts = 0;
  last_error = none;
  next_attempt_at = none;
}

abbrev old_event : OutboxEvent
old_event = record (event 7) { published_at = some 3000000 }

abbrev full : Db
full = record db { outbox = (40, event 7) ∷ (41, old_event) ∷ (42, event 8) ∷ [] }

-- the broker takes what has the key 7
abbrev producer : Producer
producer call topic key payload = if key == 7 then none else some "broker down"

abbrev unlocked : ℕ → Bool
unlocked id = false

published_out : ¬ IsIn (batch (world.now full.calls) unlocked 50 full.outbox) 41
unfolding order_by_age insert_by_age
published_out = λ h. ground arith

-- The producer refuses the event 42; the database is away once, and a purge runs in between.
abbrev cycles : List Cycle
cycles =
    relays unlocked none (λ d. d)
    ∷ purges none (λ d. d)
    ∷ relays unlocked (some key_error) (λ d. d)
    ∷ relays unlocked none (λ d. d)
    ∷ []

abbrev begun : Background
begun = record { db = full; relay_sleeps = 0; purge_sleeps = 0 }

event-IsPending : IsPending 42 (event 8) full
event-IsPending = record {
  row = event 8;
  found = refl;
  same = record { topic = refl; key = refl; payload = refl; created_at = refl };
  unpublished = refl;
}

background_keeps_example :
    SentDuring world producer settings 42 (event 8) cycles begun
    ⊎ IsPending 42 (event 8) (background world producer settings cycles begun).db
background_keeps_example =
    background_keeps world producer settings 42 (event 8) cycles begun
      (λ d r h. h, (λ d r h. h, (λ d r h. h, (λ d r h. h, tt)))) event-IsPending
