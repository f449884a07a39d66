-- ===== src/Services/Roulette/History.antt =====
-- app/services/roulette.py, `list_rounds`.
use theclub_api.Prelude.{ℕ, Option}
use theclub_api.Exec.{Exec}
use theclub_api.Rows.{Table}
use theclub_api.Db.{Db, Round}
use theclub_api.Repositories.Listing.{Place, list_by_user}

-- `list_rounds`
unfoldable pub list_rounds : ℕ → Option Place → ℕ → Exec Db (Table Round)
list_rounds user_id cursor limit = list_by_user user_id cursor limit
