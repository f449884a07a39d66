-- ===== src/Events/Relay/Loops.antt =====
-- app/events/relay.py, `relay_loop`, and app/events/outbox_cleanup.py, `purge_loop`: the two background
-- tasks, whose cycles follow each other in any order until the application stops. A cycle may fail as a
-- whole, as it does when the database is away; then its transaction has changed nothing.
pub mod Kept
use theclub_api.Prelude.{ℕ, suc, ◌==◌, Bool, Option, none, some, List, [], ◌∷◌, if◌then◌else◌}
use theclub_api.Result.{Error, Result, ok, err}
use theclub_api.Config.{Settings}
use theclub_api.Db.{Db}
use theclub_api.World.{World, tick}
use theclub_api.Events.Relay.{Producer, relay_batch_size, relay_once, purge_once}

-- One cycle of a loop: whether it fails, and what other transactions do to the database before the next
-- cycle of either loop. A cycle of the relay finds the rows that other relays have locked.
pub data Cycle : Type 0 where
  relays : (ℕ → Bool) → Option Error → (Db → Db) → Cycle
  purges : Option Error → (Db → Db) → Cycle

-- the database, and how often each loop has slept for its interval
pub record Background : Type 0 where
  pub db : Db
  pub relay_sleeps : ℕ
  pub purge_sleeps : ℕ

module _ (w : World) (producer : Producer) (settings : Settings) where
  abbrev unless_failed : Option Error → Result ℕ × Db → Db → Result ℕ × Db
  unless_failed none run db = run
  unless_failed (some e) run db = (err e, tick db)

  -- `except Exception: published = 0`
  abbrev pub count_of : Result ℕ → ℕ
  count_of (ok published) = published
  count_of (err e) = 0

  -- the rest of a cycle of `relay_loop`: it sleeps only where nothing was pending
  abbrev pub after_relay : Background → (Db → Db) → Result ℕ × Db → Background
  after_relay b others (r, db) = record b {
    db = others db;
    relay_sleeps = if count_of r == 0 then suc b.relay_sleeps else b.relay_sleeps;
  }

  -- the rest of a cycle of `purge_loop`: it always sleeps
  abbrev pub after_purge : Background → (Db → Db) → Result ℕ × Db → Background
  after_purge b others (r, db) = record b { db = others db; purge_sleeps = suc b.purge_sleeps }

  unfoldable pub cycle : Cycle → Background → Background
  cycle (relays locked failure others) b =
      after_relay b others
        (unless_failed failure (relay_once w producer locked relay_batch_size b.db) b.db)
  cycle (purges failure others) b =
      after_purge b others
        (unless_failed failure (purge_once w settings.outbox_retention_hours b.db) b.db)

  -- `relay_loop` and `purge_loop`
  unfoldable pub background : List Cycle → Background → Background
  background [] b = b
  background (c ∷ cycles) b = background cycles (cycle c b)
