-- ===== src/Api/Retry.antt =====
-- What a client gets that sends a request of `create_round` or of `deposit` again.
use theclub_api.Prelude.{ℕ, String, ◌≡◌, refl, sym, ap, ◌∙◌, Bool, true, false, not, List, ◌&&◌, ℤ}
use theclub_api.Result.{Result, ok, err, request_invalid, raise_if}
use theclub_api.Exec.{Exec, continue, lift, pure, bind_returned, returned_eq, ◌>>=◌, ◌>>◌}
use theclub_api.Exec.Frames.{Frames, frames_rules}
use theclub_api.Json.{Dict}
use theclub_api.Domain.Fairness.{Bytes}
use theclub_api.Db.{Db}
use theclub_api.Config.{Settings}
use theclub_api.World.{World}
use theclub_api.Services.Idempotency.{Request, run_idempotent}
use theclub_api.Services.Idempotency.Reserved.{after_calls}
use theclub_api.Services.Idempotency.Replay.{keys}
use theclub_api.Services.Idempotency.AtMostOnce.{run_idempotent-replay}
use theclub_api.Services.Untouched.{Ignores, IgnoresMoney, IgnoresSeeds}
use theclub_api.Services.Untouched.Payments.{deposit-Frames}
use theclub_api.Services.Untouched.Play.{place_bet-Frames}
use theclub_api.Services.Roulette.{BetRequest}
use theclub_api.Api.App.{App, on_db, with_db, notify}
use theclub_api.Api.Rounds.{
  is_key_length, is_round_request, request_of, round_work, any_won, increment, count_round,
  create_round,
}
use theclub_api.Api.Deposits.{deposit_work}

-- The common course of the two routes: test the request, run it under its key, report the result.
abbrev pub guarded :
    World → Request → Bool → Exec Db Dict → (Dict → Exec App (Unit {0})) → Exec App Dict
guarded w request valid work report = do
  lift (raise_if (not valid) request_invalid)
  result ← on_db (run_idempotent w request work)
  report result
  pure result

-- A report writes no table, and whether it raises depends on the result alone.
pub record IsReport (report : Dict → Exec App (Unit {0})) : Type 0 where
  pub keeps_db : (result : Dict) (app : App) → (report result app).1.db ≡ app.db
  pub same : (result : Dict) (app other : App) → (report result app).0 ≡ (report result other).0

-- The application after a repeated answer: the tables as before, and the report once more.
abbrev pub reported_again : (Dict → Exec App (Unit {0})) → Dict → App → App
reported_again report result app = (report result (record app { db = after_calls app.db })).1

-- The report of a round: the notification and the count.
abbrev pub report_round : ℕ → Dict → Exec App (Unit {0})
report_round user_id result = do notify user_id "round.settled" result; count_round result

counted_db : (r : Result Bool) (app : App) → (continue (r, app) increment).1.db ≡ app.db
counted_db (ok true) app = refl
counted_db (ok false) app = refl
counted_db (err e) app = refl

counted_same :
    (r : Result Bool) (app other : App)
    → (continue (r, app) increment).0 ≡ (continue (r, other) increment).0
counted_same (ok true) app other = refl
counted_same (ok false) app other = refl
counted_same (err e) app other = refl

pub report_round-IsReport : (user_id : ℕ) → IsReport (report_round user_id)
unfolding notify count_round ◌>>=◌
report_round-IsReport user_id = record {
  keeps_db = λ result app. counted_db (any_won result) _;
  same = λ result app other. counted_same (any_won result) _ _;
}

pub notify-IsReport : (user_id : ℕ) (kind : String) → IsReport (notify user_id kind)
unfolding notify
notify-IsReport user_id kind = record {
  keeps_db = λ result app. refl;
  same = λ result app other. refl;
}

module _ (w : World) (request : Request) (work : Exec Db Dict) (report : Dict → Exec App (Unit {0}))
    (reports : IsReport report) where
  run_on_db :
      (app mid : App) (found : Dict)
      → on_db (run_idempotent w request work) app ≡ (ok found, mid)
      → run_idempotent w request work app.db ≡ (ok found, mid.db)
  run_on_db app mid found h = λ i. ((h i).0, (h i).1.db)

  -- What a route that returned has done in the database, and that its report raised nothing.
  pub guarded-eq-ok :
      (valid : Bool) (app after : App) (result : Dict)
      → guarded w request valid work report app ≡ (ok result, after)
      → (valid ≡ true)
        × (run_idempotent w request work app.db ≡ (ok result, after.db))
        × ((other : App) → (report result other).0 ≡ ok tt)
  guarded-eq-ok false app after result h =
      bind_returned _ _ app after result h
        λ _ app1 e1 h1. let bad : err request_invalid ≡ ok tt = ap (λ r. r.0) e1 in absurd (cc bad)
  guarded-eq-ok true app after result h = bind_returned _ _ app after result h λ _ app1 e1 h1.
      bind_returned _ _ app1 after result h1 λ found mid e2 h2.
        bind_returned (report found) _ mid after result h2 λ _ last e3 h3.
          let (same, left) = returned_eq h3 in
          let start : app1 ≡ app = sym (returned_eq e1).1 in
          let told : mid.db ≡ after.db =
            sym (reports.keeps_db found mid)
            ∙ ap (λ (r : Result (Unit {0}) × App). r.1.db) e3
            ∙ ap (λ (a : App). a.db) left in
          (
            refl,
            ap (λ (a : App). run_idempotent w request work a.db) (sym start)
                ∙ run_on_db app1 mid found e2
                ∙ (λ i. (ok (same i), told i)),
            λ other.
                reports.same result other mid
                ∙ ap (λ d. (report d mid).0) (sym same)
                ∙ ap (λ r. r.0) e3,
          )

  pub guarded-replay :
      (app : App) (result : Dict)
      → run_idempotent w request work app.db ≡ (ok result, after_calls app.db)
      → ((other : App) → (report result other).0 ≡ ok tt)
      → guarded w request true work report app ≡ (ok result, reported_again report result app)
  unfolding ◌>>=◌
  guarded-replay app result h told =
      let again : App = record app { db = after_calls app.db } in
      ap (λ r. continue (with_db app r) (λ found. report found >> pure found)) h
      ∙ ap (λ r. continue (r, (report result again).1) (λ _. pure result)) (told again)

-- The table of keys is a part that the work of a route leaves alone.
keys-Ignores : Ignores keys
keys-Ignores = record {
  of_calls = λ db n. refl;
  of_outbox = λ db t. refl;
  of_rounds = λ db t. refl;
  of_bets = λ db t. refl;
}

keys-IgnoresMoney : IgnoresMoney keys
keys-IgnoresMoney = record { of_wallets = λ db t. refl; of_ledger = λ db l. refl }

keys-IgnoresSeeds : IgnoresSeeds keys
keys-IgnoresSeeds = record { of_seed_pairs = λ db t. refl }

pub round_work-Frames :
    (w : World) (settings : Settings) (user_id : ℕ) (key : String) (bets : List BetRequest)
    → Frames keys (round_work w settings user_id key bets)
unfolding round_work
round_work-Frames w settings user_id key bets =
    search
      (frames_rules, place_bet-Frames keys-Ignores keys-IgnoresMoney w settings keys-IgnoresSeeds)

pub deposit_work-Frames :
    (w : World) (settings : Settings) (user_id : ℕ) (key : String) (amount : ℤ)
    → Frames keys (deposit_work w settings user_id key amount)
unfolding deposit_work
deposit_work-Frames w settings user_id key amount =
    search (frames_rules, deposit-Frames keys-Ignores keys-IgnoresMoney w)

module _ (w : World) (settings : Settings) (user_id : ℕ) (key : String) (raw_body : Bytes)
    (app after later : App) (result : Dict) where
  -- A round that was placed is not placed again: the same request, in any later state with the same
  -- table of keys, returns the same round and changes no table: it sends the notification again and
  -- counts the round again in `bets_placed_total`.
  pub create_round-replay :
      (bets : List BetRequest)
      → create_round w settings user_id key raw_body bets app ≡ (ok result, after)
      → keys later.db ≡ keys after.db
      → create_round w settings user_id key raw_body bets later
        ≡ (ok result, reported_again (report_round user_id) result later)
  unfolding create_round notify ◌>>=◌
  create_round-replay bets h kept =
      let request = request_of w settings user_id key raw_body in
      let work = round_work w settings user_id key bets in
      let valid = is_key_length key && is_round_request bets in
      let report = report_round user_id in
      let reports = report_round-IsReport user_id in
      let (good, ran, told) =
        guarded-eq-ok w request work report reports valid app after result h in
      rw good (
        guarded-replay w request work report reports later result
          (run_idempotent-replay w request work (round_work-Frames w settings user_id key bets)
            app.db after.db result ran later.db kept work)
          told)
