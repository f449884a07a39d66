-- ===== src/Api/Rounds.antt =====
-- app/api/v1/roulette.py: POST /roulette/rounds.
use package.text.Mathlib.Text.{◌==◌ as str_eq}
use Prim.Native.String.{count as count_str}
use theclub_api.Prelude.{
  ℕ, suc, true, false, if◌then◌else◌, ◌==ℤ◌, String, Bool, not, ◌&&◌, List, length, every, leb, pos,
  ltb_ℤ,
}
use theclub_api.Result
use theclub_api.Result.{Result, ok, err, key_error, type_error, request_invalid, raise_if, or_raise}
use theclub_api.Exec.{Exec, lift, pure, ◌>>=◌, ◌>>◌}
use theclub_api.Json.{
  Json, Dict, Items, null, boolean, number, text, array, object, no_items, item, empty, entry,
  get_key,
}
use theclub_api.Domain.Fairness.{Bytes}
use theclub_api.Db.{Db}
use theclub_api.Config.{Settings}
use theclub_api.World.{World}
use theclub_api.Services.Idempotency.{
  Request, idempotency_key_max_length, hash_request_body, run_idempotent,
}
use theclub_api.Services.Roulette.{BetRequest, place_bet}
use theclub_api.Services.Roulette.ToDict.{result_to_dict}
use theclub_api.Api.App.{App, on_db, notify}

abbrev pub max_bets_per_round : ℕ
max_bets_per_round = 20

-- `Header(alias="Idempotency-Key", min_length=1, max_length=…)`
unfoldable pub is_key_length : String → Bool
is_key_length key = leb 1 (count_str key) && leb (count_str key) idempotency_key_max_length

-- the bounds of `PlaceRoundRequest` and of `BetInput`
unfoldable pub is_round_request : List BetRequest → Bool
is_round_request bets =
    leb 1 (length bets)
    && leb (length bets) max_bets_per_round
    && every (λ b. ltb_ℤ (pos 0) b.stake_minor) bets

-- the arguments of `run_idempotent`
abbrev pub request_of : World → Settings → ℕ → String → Bytes → Request
request_of w settings user_id key raw_body = record {
  user_id = user_id;
  key = key;
  request_hash = hash_request_body w raw_body;
  ttl_hours = settings.idempotency_key_ttl_hours;
}

-- Whether Python takes a value for true.
abbrev truthy : Json → Bool
truthy null = false
truthy (boolean b) = b
truthy (number n) = not (n ==ℤ pos 0)
truthy (text s) = not (str_eq s "")
truthy (array no_items) = false
truthy (array (item j js)) = true
truthy (object empty) = false
truthy (object (entry k j rest)) = true

-- `bet["won"]`
abbrev won_of : Json → Result Bool
won_of (object bet) = Result.◌>>=◌ (or_raise (get_key "won" bet) key_error) (λ j. ok (truthy j))
won_of _ = err type_error

-- `any(bet["won"] for bet in …)`
unfoldable pub any_won_in : Items → Result Bool
any_won_in no_items = ok false
any_won_in (item bet bets) =
    let rest = any_won_in bets in Result.◌>>=◌ (won_of bet) (λ won. if won then ok true else rest)

-- what can be iterated, and yields dicts
abbrev any_won_of : Json → Result Bool
any_won_of (array bets) = any_won_in bets
any_won_of (object empty) = ok false
any_won_of (text s) = if str_eq s "" then ok false else err type_error
any_won_of _ = err type_error

-- `any_won`
unfoldable pub any_won : Dict → Result Bool
any_won result = Result.◌>>=◌ (or_raise (get_key "bets" result) key_error) any_won_of

-- `bets_placed_total.labels(won=…).inc()`
abbrev pub increment : Bool → Exec App (Unit {0})
increment true app = (ok tt, record app { bets_won = suc app.bets_won })
increment false app = (ok tt, record app { bets_lost = suc app.bets_lost })

unfoldable pub count_round : Dict → Exec App (Unit {0})
count_round result = do won ← lift (any_won result); increment won

module _ (w : World) (settings : Settings) (user_id : ℕ) (idempotency_key : String) where
  -- `work` of `create_round`
  unfoldable pub round_work : List BetRequest → Exec Db Dict
  round_work bets = do
    result ← place_bet w settings user_id idempotency_key bets
    pure (result_to_dict w result)

  -- `create_round`, for an authenticated user
  unfoldable pub create_round : Bytes → List BetRequest → Exec App Dict
  create_round raw_body bets = do
    lift (raise_if (not (is_key_length idempotency_key && is_round_request bets)) request_invalid)
    result ← on_db (
        run_idempotent w (request_of w settings user_id idempotency_key raw_body) (round_work bets))
    notify user_id "round.settled" result
    count_round result
    pure result
