-- ===== src/Api/Health/Ready.antt =====
-- What /ready answers, and how long it takes.
use text.Mathlib.Text.{◌==◌ as str_eq}
use theclub_api.Prelude.{
  ℕ, ◌≤◌, ◌<◌, ◌≡◌, ◌↔◌, ◌⊎◌, refl, arith, true, false, every, All, [], ◌∷◌, ltb, ltb→lt, lt→ltb,
  Bool-cases, inl, inr,
}
use theclub_api.Api.Health.{
  returned, timed_out, failed, CheckCall, hangs, takes, check_timeout, ReadinessRegistry, wait_for,
  run, run_time, ready,
}

-- A check that returned in time.
abbrev pub Responds : CheckCall → Type 0
Responds call = (time : ℕ) × (call ≡ takes time returned) × (time < check_timeout)

wait_for_iff : (call : CheckCall) → (str_eq (wait_for call).0 "ok" ≡ true) ↔ Responds call
unfolding wait_for
wait_for_iff hangs = (λ h. absurd (cc h), λ (time, e, _). absurd (cc))
wait_for_iff (takes time returned) = elim (Bool-cases (ltb time check_timeout)) [
  | inl early ↦ (λ h. (time, refl, ltb→lt time check_timeout early), λ h. rw early refl)
  | inr late ↦ (
    λ h. let bad : false ≡ true = rw late at h in absurd (cc bad),
    λ (t, e, lt). let same : time ≡ t = cc e in absurd (ground (arith, lt→ltb time check_timeout)),
  )
]
wait_for_iff (takes time timed_out) = (
  λ h. elim (Bool-cases (ltb time check_timeout)) [
    | inl early ↦ let bad : false ≡ true = rw early at h in absurd (cc bad)
    | inr late ↦ let bad : false ≡ true = rw late at h in absurd (cc bad)
  ],
  λ (t, e, lt). absurd (cc e),
)
wait_for_iff (takes time failed) = (
  λ h. elim (Bool-cases (ltb time check_timeout)) [
    | inl early ↦ let bad : false ≡ true = rw early at h in absurd (cc bad)
    | inr late ↦ let bad : false ≡ true = rw late at h in absurd (cc bad)
  ],
  λ (t, e, lt). absurd (cc e),
)

wait_for_bound : (call : CheckCall) → (wait_for call).1 ≤ check_timeout
unfolding wait_for
wait_for_bound hangs = omega arith
wait_for_bound (takes time end) = ground arith

module _ {E : Type 0} (env : E) where
  run_time-le : (registry : ReadinessRegistry E) → run_time env registry ≤ check_timeout
  unfolding run_time
  run_time-le [] = omega arith
  run_time-le ((name, check) ∷ registry) =
      ground (arith, wait_for_bound (check env), run_time-le registry)

  every_ok_iff :
      (registry : ReadinessRegistry E)
      → (every (λ c. str_eq c.1 "ok") (run env registry) ≡ true)
        ↔ All (λ c. Responds (c.1 env)) registry
  unfolding run
  every_ok_iff [] = (λ h. tt, λ h. refl)
  every_ok_iff ((name, check) ∷ registry) =
      let one = wait_for_iff (check env) in
      let rest = every_ok_iff registry in
      (λ h. (one.0 (ground arith), rest.0 (ground arith)), λ h. rw (one.1 h.0) (rest.1 h.1))

  -- /ready answers 200 exactly if every registered check returns within two seconds, and 503 otherwise;
  -- the checks are waited for at most two seconds, however many there are and whichever of them hang.
  pub ready_iff :
      (registry : ReadinessRegistry E)
      → (((ready env registry).status_code ≡ 200) ↔ All (λ c. Responds (c.1 env)) registry)
        × (((ready env registry).status_code ≡ 200) ⊎ ((ready env registry).status_code ≡ 503))
        × (run_time env registry ≤ check_timeout)
  unfolding ready
  ready_iff registry =
      let all = every_ok_iff registry in
      elim (Bool-cases (every (λ c. str_eq c.1 "ok") (run env registry))) [
        | inl healthy ↦ (
          (λ h. all.0 healthy, λ h. rw healthy refl),
          inl (rw healthy refl),
          run_time-le registry,
        )
        | inr degraded ↦ (
          (λ h. absurd (ground arith), λ h. absurd (cc (all.1 h))),
          inr (rw degraded refl),
          run_time-le registry,
        )
      ]
