-- ===== src/Domain/Fairness/Outcome.antt =====
-- The loop of `derive_outcome`: which value it returns, and how much fuel it takes.
use theclub_api.Prelude.{
  ℕ, zero, suc, ◌+◌, ◌<◌, ◌≡◌, ◌∙◌, none, some, inl, inr, arith, Option-cases,
}
use theclub_api.Domain.Fairness.{Bytes, SeedMaterial, attempt, derive_from, derive_outcome}
use theclub_api.Domain.Fairness.Uniform.{uniform_below-lt}

add_shift : (a j : ℕ) → a + suc j ≡ a + 1 + j
add_shift a j = omega arith

module _ (hmac : Bytes → Bytes → Bytes) (seed : SeedMaterial) (m : ℕ) where
  -- the value of round `first + k` is the first that is accepted from round `first` on
  abbrev pub IsFirst : ℕ → ℕ → ℕ → Type 0
  IsFirst first k r =
      (attempt hmac seed m (first + k) ≡ some r)
      × ((j : ℕ) → j < k → attempt hmac seed m (first + j) ≡ none)

  derive_from_first :
      (fuel first k r : ℕ)
      → k < fuel
      → IsFirst first k r
      → derive_from hmac fuel seed m first ≡ some r
  unfolding derive_from
  derive_from_first zero first k r l h = elim l [ ]
  derive_from_first (suc fuel) first zero r l h =
      let e : first + 0 ≡ first = omega arith in
      let here : attempt hmac seed m first ≡ some r = rw e at h.0 in rw (here, derive_from)
  derive_from_first (suc fuel) first (suc k) r l h =
      let e : first + 0 ≡ first = omega arith in
      let shift : first + suc k ≡ first + 1 + k = omega arith in
      let here : attempt hmac seed m first ≡ none = rw e at (h.1 0 (omega arith)) in
      rw (here, derive_from)
        (derive_from_first fuel (first + 1) k r (omega arith)
          (rw shift at h.0, λ j b. rw (← add_shift first j) (h.1 (suc j) (omega arith))))

  attempt-lt : (k : ℕ) {r : ℕ} → 0 < m → attempt hmac seed m k ≡ some r → r < m
  unfolding attempt
  attempt-lt k pos_m h = uniform_below-lt _ m pos_m h

  -- Where the value of round `k` is the first that is accepted, `derive_outcome` returns it with any
  -- fuel above `k`, so at most `k + 1` rounds are run; and the outcome is below the modulus.
  pub derive_outcome_first :
      (fuel k r : ℕ)
      → 0 < m
      → k < fuel
      → IsFirst 0 k r
      → (derive_outcome hmac fuel seed m ≡ some r) × (r < m)
  unfolding derive_outcome
  derive_outcome_first fuel k r pos_m l h =
      (derive_from_first fuel 0 k r l h, attempt-lt (0 + k) pos_m h.0)

  none_before :
      (first k j : ℕ)
      → attempt hmac seed m first ≡ none
      → ((i : ℕ) → i < k → attempt hmac seed m (first + 1 + i) ≡ none)
      → j < suc k
      → attempt hmac seed m (first + j) ≡ none
  none_before first k zero rejected before l =
      let e : first + 0 ≡ first = omega arith in rw e rejected
  none_before first k (suc j) rejected before l = rw (add_shift first j) (before j (omega arith))

  derive_from_sound :
      (fuel first r : ℕ)
      → derive_from hmac fuel seed m first ≡ some r
      → (k : ℕ) × (k < fuel) × IsFirst first k r
  unfolding derive_from
  derive_from_sound zero first r h = cc
  derive_from_sound (suc fuel) first r h = elim (Option-cases (attempt hmac seed m first)) [
    | inl rejected ↦
        let (k, l, found) =
          derive_from_sound fuel (first + 1) r (rw (rejected, derive_from) at h) in
        (
          suc k,
          omega arith,
          (rw (add_shift first k) found.0, λ j b. none_before first k j rejected found.1 b),
        )
    | inr (x, accepted) ↦
        let e : first + 0 ≡ first = omega arith in
        (
          0,
          omega arith,
          (rw e (accepted ∙ (rw (accepted, derive_from) at h)), λ j b. absurd (omega arith)),
        )
  ]

  -- Whatever the fuel, a result of `derive_outcome` is the value of the first round of HMAC in which
  -- a block is accepted.
  pub derive_outcome_sound :
      (fuel r : ℕ) → derive_outcome hmac fuel seed m ≡ some r → (k : ℕ) × (k < fuel) × IsFirst 0 k r
  unfolding derive_outcome
  derive_outcome_sound fuel r h = derive_from_sound fuel 0 r h
