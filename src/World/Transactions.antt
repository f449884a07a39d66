-- ===== src/World/Transactions.antt =====
-- `async with session_factory() as session, session.begin()`: a transaction of its own on the database.
use theclub_api.Result.{Result, ok, err}
use theclub_api.Exec.{Exec}
use theclub_api.Db.{Db}
use theclub_api.World.{World, tick}

-- the database at the start of a transaction
abbrev pub begun : World → Db → Db
begun w db = record (tick db) { started = w.server_now db.calls }

-- the tables go back, the calls that were made have been made
abbrev pub rolled_back : Db → Db → Db
rolled_back before after = record before { calls = after.calls }

module _ {A : Type 0} where
  abbrev pub settle : Db → Result A × Db → Result A × Db
  settle before (ok a, after) = (ok a, after)
  settle before (err e, after) = (err e, rolled_back before after)

  unfoldable pub in_transaction : World → Exec Db A → Exec Db A
  in_transaction w m db = settle db (m (begun w db))
