-- ===== src/Api/App.antt =====
-- The state that the routes share (`app.state`): the database and the broadcaster of notifications; and
-- the counter `bets_placed_total` of app/infra/metrics.py, by its label `won`.
use theclub_api.Prelude.{ℕ, String}
use theclub_api.Result.{Result, ok}
use theclub_api.Exec.{Exec}
use theclub_api.Json.{Dict, text, entry}
use theclub_api.Db.{Db}
use theclub_api.Ws.Broadcaster.{InMemoryBroadcaster, publish}

pub record App : Type 0 where
  pub db : Db
  pub broadcaster : InMemoryBroadcaster Dict
  pub bets_won : ℕ
  pub bets_lost : ℕ

module _ {A : Type 0} where
  abbrev pub with_db : App → Result A × Db → Result A × App
  with_db app (r, db) = (r, record app { db = db })

  abbrev pub on_db : Exec Db A → Exec App A
  on_db m app = with_db app (m app.db)

-- `broadcaster.publish(user_id, {"type": …, **result})`; no result has a key `type`
unfoldable pub notify : ℕ → String → Dict → Exec App (Unit {0})
notify user_id kind result app = (
  ok tt,
  record app { broadcaster = publish user_id (entry "type" (text kind) result) app.broadcaster },
)
