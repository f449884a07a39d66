-- ===== src/Api/Health.antt =====
-- app/api/health.py: the readiness checks and the routes /health and /ready. A check is what a call of it
-- does in an environment `E`: how long it takes, in microseconds, or that it hangs, and how it ends.
pub mod Ready
use text.Mathlib.Text.{◌==◌ as str_eq}
use theclub_api.Prelude.{ℕ, String, Bool, any, every, map, List, [], ◌∷◌, ◌++◌, ltb, if◌then◌else◌}
use theclub_api.Result.{Result, ok, err, value_error}
use theclub_api.Config.{Settings, Environment}

-- how a check ends: it returns, raises TimeoutError itself, or raises another exception
pub data Ended : Type 0 where
  returned timed_out failed : Ended

pub data CheckCall : Type 0 where
  hangs : CheckCall
  takes : ℕ → Ended → CheckCall

abbrev pub ReadinessCheck : Type 0 → Type 0
ReadinessCheck E = E → CheckCall

abbrev pub check_timeout : ℕ
check_timeout = 2000000

-- the result of a check and how long it was waited for
abbrev pub status_of : Ended → String
status_of returned = "ok"
status_of timed_out = "timeout"
status_of failed = "fail"

-- `asyncio.wait_for` and the `except` clauses of `_run_one`
unfoldable pub wait_for : CheckCall → String × ℕ
wait_for hangs = ("timeout", check_timeout)
wait_for (takes time end) =
    if ltb time check_timeout then (status_of end, time) else ("timeout", check_timeout)

-- `ReadinessRegistry`: the dict of its checks, in the order of registration
abbrev pub ReadinessRegistry : Type 0 → Type 0
ReadinessRegistry E = List (String × ReadinessCheck E)

abbrev pub later : ℕ → ℕ → ℕ
later a b = if ltb a b then b else a

module _ {E : Type 0} where
  -- `register`
  unfoldable pub register :
      String → ReadinessCheck E → ReadinessRegistry E → Result (ReadinessRegistry E)
  register name check checks =
      if any (λ c. str_eq c.0 name) checks
      then err value_error
      else ok (checks ++ (name, check) ∷ [])

  -- `_run_one`, under its name
  abbrev pub run_one : E → String × ReadinessCheck E → String × String
  run_one env (name, check) = (name, (wait_for (check env)).0)

  -- `run`
  unfoldable pub run : E → ReadinessRegistry E → List (String × String)
  run env checks = map (run_one env) checks

  -- `asyncio.gather`: all checks start at once, and the last to end is waited for
  unfoldable pub run_time : E → ReadinessRegistry E → ℕ
  run_time env [] = 0
  run_time env ((name, check) ∷ checks) = later (wait_for (check env)).1 (run_time env checks)

pub record HealthResponse : Type 0 where
  pub status : String
  pub name : String
  pub version : String
  pub env : Environment

-- `health`
unfoldable pub health : Settings → HealthResponse
health settings = record {
  status = "ok";
  name = settings.app_name;
  version = settings.app_version;
  env = settings.app_env;
}

pub record ReadyResponse : Type 0 where
  pub status_code : ℕ
  pub status : String
  pub checks : List (String × String)

abbrev respond_ready : Bool → List (String × String) → ReadyResponse
respond_ready healthy checks = record {
  status_code = if healthy then 200 else 503;
  status = if healthy then "ready" else "degraded";
  checks = checks;
}

-- `ready`
unfoldable pub ready : {E : Type 0} → E → ReadinessRegistry E → ReadyResponse
ready env registry =
    let checks = run env registry in respond_ready (every (λ c. str_eq c.1 "ok") checks) checks
