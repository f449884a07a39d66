-- ===== src/Services/Untouched.antt =====
-- Statements that leave a part of the database as it was. The part is any function of the state; what
-- it does not depend on is written down once, and the statements that write only that keep it.
pub mod Payments
pub mod Play
use theclub_api.Prelude.{ℕ, String, ◌≡◌, refl, Option, List}
use theclub_api.Result.{Result, ok, err}
use theclub_api.Exec.Frames.{Frames, Frames-bind, frames_rules}
use theclub_api.Rows.{Table}
use theclub_api.Db.{Db, Wallet, LedgerEntry, SeedPair, Round, Bet, OutboxEvent}
use theclub_api.World.{World, new_uuid, read_clock}
use theclub_api.Events.Schemas.{EventData, EventEnvelope}
use theclub_api.Events.Outbox.{put_outbox, new_envelope, enqueue_event, emit}
use theclub_api.Repositories.Wallets.{get_by_user_id}
use theclub_api.Services.Wallet.{require_wallet}

-- The part does not depend on the calls made, the outbox, the rounds or the bets.
pub record Ignores {X : Type 0} (part : Db → X) : Type 0 where
  pub of_calls : (db : Db) (n : ℕ) → part (record db { calls = n }) ≡ part db
  pub of_outbox : (db : Db) (t : Table OutboxEvent) → part (record db { outbox = t }) ≡ part db
  pub of_rounds : (db : Db) (t : Table Round) → part (record db { rounds = t }) ≡ part db
  pub of_bets : (db : Db) (t : Table Bet) → part (record db { bets = t }) ≡ part db

-- The part does not depend on the wallets or the ledger.
pub record IgnoresMoney {X : Type 0} (part : Db → X) : Type 0 where
  pub of_wallets : (db : Db) (t : Table Wallet) → part (record db { wallets = t }) ≡ part db
  pub of_ledger : (db : Db) (l : List LedgerEntry) → part (record db { ledger = l }) ≡ part db

-- The part does not depend on the seed pairs.
pub record IgnoresSeeds {X : Type 0} (part : Db → X) : Type 0 where
  pub of_seed_pairs : (db : Db) (t : Table SeedPair) → part (record db { seed_pairs = t }) ≡ part db

pub get_by_user_id-Frames :
    {X : Type 0} {part : Db → X} (user_id : ℕ) → Frames part (get_by_user_id user_id)
unfolding get_by_user_id
get_by_user_id-Frames user_id = record { at = λ db. refl }

pub require_wallet-Frames :
    {X : Type 0} {part : Db → X} (user_id : ℕ) → Frames part (require_wallet user_id)
unfolding require_wallet
require_wallet-Frames user_id = search (frames_rules, get_by_user_id-Frames)

module _ {X : Type 0} {part : Db → X} (ignores : Ignores part) (w : World) where
  pub new_uuid-Frames : Frames part (new_uuid w)
  new_uuid-Frames = record { at = λ db. ignores.of_calls db _ }

  pub read_clock-Frames : Frames part (read_clock w)
  read_clock-Frames = record { at = λ db. ignores.of_calls db _ }

  new_envelope-Frames : (d : EventData) (key : Option String) → Frames part (new_envelope w d key)
  unfolding new_envelope
  new_envelope-Frames d key = search (frames_rules, new_uuid-Frames, read_clock-Frames)

  put_outbox-part : (r : Result (Table OutboxEvent)) (db : Db) → part (put_outbox r db).1 ≡ part db
  put_outbox-part (ok rows) db = ignores.of_outbox db rows
  put_outbox-part (err e) db = refl

  enqueue_event-Frames :
      (prefix : String) (e : EventEnvelope) (user_id : ℕ)
      → Frames part (enqueue_event w prefix e user_id)
  unfolding enqueue_event
  enqueue_event-Frames prefix e user_id =
      Frames-bind _ _ new_uuid-Frames (λ id. record { at = λ db. put_outbox-part _ db })

  pub emit-Frames :
      (prefix : String) (d : EventData) (key : Option String) (user_id : ℕ)
      → Frames part (emit w prefix d key user_id)
  unfolding emit
  emit-Frames prefix d key user_id =
      search (frames_rules, new_envelope-Frames, enqueue_event-Frames)
