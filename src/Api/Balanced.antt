-- ===== src/Api/Balanced.antt =====
-- The routes that move money keep every balance equal to the sum of its ledger entries.
use theclub_api.Prelude.{
  ℕ, String, ◌≡◌, refl, sym, ap, ◌∙◌, subst, Bool, true, false, ◌&&◌, List, ℤ, pos, ◌≤ℤ◌,
}
use theclub_api.Result.{Result, ok, err}
use theclub_api.Exec.{Exec, bind_returned, returned_eq, continue, pure, ◌>>=◌, ◌>>◌}
use theclub_api.Exec.Frames.{Frames}
use theclub_api.Json.{Dict}
use theclub_api.Domain.Fairness.{Bytes}
use theclub_api.Db.{Db}
use theclub_api.Config.{Settings}
use theclub_api.World.{World}
use theclub_api.Services.Wallet.Balanced.{money, IsBalanced}
use theclub_api.Services.Wallet.Deposit.{deposit-IsBalanced}
use theclub_api.Services.Roulette.{BetRequest}
use theclub_api.Services.Roulette.PlaceBet.{place_bet-IsBalanced}
use theclub_api.Services.Idempotency.{Request, run_idempotent}
use theclub_api.Services.Idempotency.Replay.{keys}
use theclub_api.Services.Idempotency.Outcome.{worked, cached, run_idempotent-Answered}
use theclub_api.Services.Idempotency.Failed.{run_idempotent-rolled_back}
use theclub_api.Api.App.{App, with_db, notify}
use theclub_api.Api.Rounds.{is_key_length, is_round_request, request_of, round_work, create_round}
use theclub_api.Api.Deposits.{is_deposit_request, deposit_work, deposit_route}
use theclub_api.Api.Retry.{
  guarded, IsReport, report_round, report_round-IsReport, notify-IsReport, round_work-Frames,
  deposit_work-Frames,
}
use theclub_api.World.Transactions.{begun}
use theclub_api.Services.Idempotency.Reserved.{with_row}

-- Work that keeps the balances right where it returns.
abbrev KeepsBalance : Exec Db Dict → Type 0
KeepsBalance work =
    (before done : Db) (body : Dict)
    → work before ≡ (ok body, done)
    → IsBalanced (money before)
    → IsBalanced (money done)

module _ (w : World) (request : Request) (work : Exec Db Dict) (keeps : Frames keys work)
    (balanced : KeepsBalance work) where
  run_idempotent-IsBalanced :
      (db : Db) → IsBalanced (money db) → IsBalanced (money (run_idempotent w request work db).1)
  run_idempotent-IsBalanced db h = go (run_idempotent w request work db) refl
    where
      go : (r : Result Dict × Db) → run_idempotent w request work db ≡ r → IsBalanced (money r.1)
      go (ok body, after) e = elim (run_idempotent-Answered w request work keeps db after body e) [
        | worked base done same free reserved ran left _ ↦ subst IsBalanced (sym (ap money left)) (
            balanced (begun w (with_row w request base)) done body ran
              (subst IsBalanced (sym (ap money same)) h))
        | cached same _ ↦ subst IsBalanced (sym (ap money same)) h
      ]
      go (err x, after) e =
          subst IsBalanced (sym (ap money (run_idempotent-rolled_back w request work db after x e)))
            h

  after_report : (body : Dict) (r : Result (Unit {0}) × App) → (continue r (λ _. pure body)).1 ≡ r.1
  after_report body (ok _, app) = refl
  after_report body (err x, app) = refl

  reported_db :
      (report : Dict → Exec App (Unit {0}))
      → IsReport report
      → (app : App) (r : Result Dict × Db)
      → (continue (with_db app r) (λ found. report found >> pure found)).1.db ≡ r.1
  unfolding ◌>>=◌
  reported_db report reports app (ok body, db) =
      ap (λ (a : App). a.db) (after_report body (report body (record app { db = db })))
      ∙ reports.keeps_db body (record app { db = db })
  reported_db report reports app (err x, db) = refl

  guarded-IsBalanced :
      (valid : Bool) (report : Dict → Exec App (Unit {0}))
      → IsReport report
      → (app : App) → IsBalanced (money app.db)
      → IsBalanced (money (guarded w request valid work report app).1.db)
  unfolding ◌>>=◌
  guarded-IsBalanced false report reports app h = h
  guarded-IsBalanced true report reports app h =
      subst (λ d. IsBalanced (money d))
        (sym (reported_db report reports app (run_idempotent w request work app.db)))
        (run_idempotent-IsBalanced app.db h)

module _ (w : World) (settings : Settings) (user_id : ℕ) (key : String) (raw_body : Bytes)
    (app : App) (balanced : IsBalanced (money app.db)) where
  deposit_work-KeepsBalance :
      (amount : ℤ) → KeepsBalance (deposit_work w settings user_id key amount)
  unfolding deposit_work
  deposit_work-KeepsBalance amount before done body h b =
      bind_returned _ _ before done body h λ view mid e k.
        subst (λ d. IsBalanced (money d)) (returned_eq k).1
          (deposit-IsBalanced w settings user_id key amount before mid view e b)

  round_work-KeepsBalance :
      (bets : List BetRequest)
      → pos 0 ≤ℤ settings.table_min_bet_minor
      → KeepsBalance (round_work w settings user_id key bets)
  unfolding round_work
  round_work-KeepsBalance bets limit before done body h b =
      bind_returned _ _ before done body h λ result mid e k.
        subst (λ d. IsBalanced (money d)) (returned_eq k).1
          (place_bet-IsBalanced w settings user_id key bets before mid result e limit b)

  -- Whatever POST /wallet/deposit returns or raises, the balance of every wallet is afterwards the sum
  -- of its ledger entries if it was before.
  pub deposit_route-IsBalanced :
      (amount : ℤ)
      → IsBalanced (money (deposit_route w settings user_id key raw_body amount app).1.db)
  unfolding deposit_route
  deposit_route-IsBalanced amount =
      guarded-IsBalanced w (request_of w settings user_id key raw_body)
        (deposit_work w settings user_id key amount)
        (deposit_work-Frames w settings user_id key amount) (deposit_work-KeepsBalance amount)
        (is_key_length key && is_deposit_request amount) (notify user_id "balance.updated")
        (notify-IsReport user_id "balance.updated") app balanced

  -- Whatever POST /roulette/rounds returns or raises, the balance of every wallet is afterwards the sum
  -- of its ledger entries if it was before, for a lower limit of the bets that is not negative.
  pub create_round-IsBalanced :
      (bets : List BetRequest)
      → pos 0 ≤ℤ settings.table_min_bet_minor
      → IsBalanced (money (create_round w settings user_id key raw_body bets app).1.db)
  unfolding create_round notify ◌>>=◌
  create_round-IsBalanced bets limit =
      guarded-IsBalanced w (request_of w settings user_id key raw_body)
        (round_work w settings user_id key bets) (round_work-Frames w settings user_id key bets)
        (round_work-KeepsBalance bets limit) (is_key_length key && is_round_request bets)
        (report_round user_id) (report_round-IsReport user_id) app balanced
