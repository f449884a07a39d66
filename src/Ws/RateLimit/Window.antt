-- ===== src/Ws/RateLimit/Window.antt =====
-- How many attempts a window lets through.
use theclub_api.Prelude.{
  ℕ, suc, ◌-◌, ◌/◌, ◌≡◌, refl, sym, ap, ◌∙◌, arith, String, Bool, true, false, ◌==◌, leb, length,
  Bool-cases, inl, inr, List, [], ◌∷◌, if◌then◌else◌,
}
use theclub_api.Ws.RateLimit.{Redis, WsConnectRateLimiter, allow, ceil_seconds, first_expires}

-- What Redis documents, for keys that are alive: the counter `value` of a key, which is 0 where there
-- is none, goes up by one with each `incr`, which returns it, and stays with `expire`.
pub record RedisLaws {ℓ} {S : Type ℓ} (redis : Redis S) : Type ℓ where
  pub value : S → String × ℕ → ℕ
  pub incr_result : (k : String × ℕ) (s : S) → (redis.incr k s).0 ≡ suc (value s k)
  pub incr_value : (k : String × ℕ) (s : S) → value (redis.incr k s).1 k ≡ suc (value s k)
  pub expire_value : (k : String × ℕ) (ttl : ℕ) (s : S) → value (redis.expire k ttl s) k ≡ value s k

-- The smaller of two numbers.
abbrev pub least : ℕ → ℕ → ℕ
least m n = if leb m n then m else n

module _ {ℓ} {S : Type ℓ} (limiter : WsConnectRateLimiter S) where
  abbrev counted : Bool → ℕ → ℕ
  counted true n = suc n
  counted false n = n

  -- how many of a client's attempts, at the times of a list, are let through
  unfoldable pub count_allowed : String → List ℕ → S → ℕ
  count_allowed key [] redis = 0
  count_allowed key (now ∷ times) redis =
      let answer = allow limiter key now redis in
      counted answer.0 (count_allowed key times answer.1)

  -- All the times are in the window `bucket`.
  abbrev pub AllIn : ℕ → List ℕ → Type 0
  AllIn bucket [] = Unit
  AllIn bucket (now ∷ times) = (now / limiter.window ≡ bucket) × AllIn bucket times

  count_step :
      (limit v n count : ℕ)
      → count ≡ least n (limit - suc v)
      → counted (leb (suc v) limit) count ≡ least (suc n) (limit - v)
  count_step limit v n count h = elim (Bool-cases (leb (suc v) limit)) [
    | inl room ↦ rw room (ground arith)
    | inr full ↦ rw full (ground arith)
  ]

  module _ (laws : RedisLaws limiter.redis) where
    first_expires-value :
        (k : String × ℕ) (p : ℕ × S) → laws.value (first_expires limiter k p).1 k ≡ laws.value p.1 k
    first_expires-value k (attempts, s) = elim (Bool-cases (attempts == 1)) [
      | inl first ↦ rw first (laws.expire_value k (ceil_seconds limiter.window) s)
      | inr later ↦ rw later refl
    ]

    module _ (key : String) (now : ℕ) (s : S) where
      abbrev counter : String × ℕ
      counter = (key, now / limiter.window)

      allow-result :
          (allow limiter key now s).0 ≡ leb (suc (laws.value s counter)) limiter.max_attempts
      unfolding allow
      allow-result = ap (λ n. leb n limiter.max_attempts) (laws.incr_result counter s)

      allow-value : laws.value (allow limiter key now s).1 counter ≡ suc (laws.value s counter)
      unfolding allow
      allow-value =
          first_expires-value counter (limiter.redis.incr counter s) ∙ laws.incr_value counter s

    -- In one window a client is let through at each attempt while the attempts that were counted are
    -- fewer than the limit, and at no later one, if the window's counter stays alive and only this
    -- client writes it.
    pub count_allowed-least :
        (key : String) (bucket : ℕ) (times : List ℕ) (s : S)
        → AllIn bucket times
        → count_allowed key times s
          ≡ least (length times) (limiter.max_attempts - laws.value s (key, bucket))
    unfolding count_allowed
    count_allowed-least key bucket [] s h = ground arith
    count_allowed-least key bucket (now ∷ times) s (same, h) =
        let rest = (allow limiter key now s).1 in
        let value : laws.value s (key, now / limiter.window) ≡ laws.value s (key, bucket) =
          ap (λ b. laws.value s (key, b)) same in
        let next : laws.value rest (key, bucket) ≡ suc (laws.value s (key, bucket)) =
          ap (λ b. laws.value rest (key, b)) (sym same) ∙ allow-value key now s ∙ ap suc value in
        ap (λ b. counted b (count_allowed key times rest))
          (allow-result key now s ∙ ap (λ v. leb (suc v) limiter.max_attempts) value)
        ∙ count_step limiter.max_attempts (laws.value s (key, bucket)) (length times) _ (
            count_allowed-least key bucket times rest h
            ∙ ap (λ v. least (length times) (limiter.max_attempts - v)) next)
