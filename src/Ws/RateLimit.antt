-- ===== src/Ws/RateLimit.antt =====
-- app/ws/rate_limit.py: `WsConnectRateLimiter`. Redis is a parameter: `incr` returns the new value of a
-- counter, `expire` sets how long it lives. A key of Redis is kept as its parts, the client and the
-- number of the window.
pub mod Window
use theclub_api.Prelude.{ℕ, ◌+◌, ◌-◌, ◌/◌, String, Bool, ◌==◌, leb, if◌then◌else◌}

pub record Redis {ℓ} (S : Type ℓ) : Type ℓ where
  pub incr : String × ℕ → S → ℕ × S
  pub expire : String × ℕ → ℕ → S → S

-- the times in microseconds
pub record WsConnectRateLimiter {ℓ} (S : Type ℓ) : Type ℓ where
  pub redis : Redis S
  pub max_attempts : ℕ
  pub window : ℕ

-- `math.ceil(self._window_seconds)`
abbrev pub ceil_seconds : ℕ → ℕ
ceil_seconds window = (window + 999999) / 1000000

module _ {ℓ} {S : Type ℓ} (limiter : WsConnectRateLimiter S) where
  -- `if attempts == 1:` the key gets its time to live
  abbrev pub first_expires : String × ℕ → ℕ × S → ℕ × S
  first_expires redis_key (attempts, redis) = (
    attempts,
    if attempts == 1
        then limiter.redis.expire redis_key (ceil_seconds limiter.window) redis
        else redis,
  )

  abbrev judge : ℕ × S → Bool × S
  judge (attempts, redis) = (leb attempts limiter.max_attempts, redis)

  -- `allow`, at the time `now`
  unfoldable pub allow : String → ℕ → S → Bool × S
  allow key now redis =
      let redis_key : String × ℕ = (key, now / limiter.window) in
      judge (first_expires redis_key (limiter.redis.incr redis_key redis))
