-- ===== src/Services/Roulette/Payment.antt =====
-- The two branches of `place_bet` on its payout, and the sign of a payout.
use theclub_api.Prelude.{
  ℕ, ◌≡◌, sym, ◌∙◌, ◌+◌, true, false, Option, none, some, List, [], ◌∷◌, All, arith, ℤ, pos, ◌≤ℤ◌,
  ◌<ℤ◌, ltb_ℤ, int_laws, sum_ℤ, *ℤ_pos_parts, ◌⊎◌, inl, inr, Bool-cases,
}
use theclub_api.Result.{ok, >>=-eq-ok as result_returned}
use theclub_api.Exec.{bind_returned, returned_eq, ok_injective}
use theclub_api.Domain.Money.{euros, times, zero_money}
use theclub_api.Domain.Bets.{PlacedBet}
use theclub_api.Domain.Bets.Validation.{covered_numbers-cases}
use theclub_api.Domain.Table.{bet_specs}
use theclub_api.Domain.Engine.{ResolvedBet, resolve_bet, resolve_bets, total_payout}
use theclub_api.Db.{Db, LedgerEntry}
use theclub_api.Config.{Settings}
use theclub_api.World.{World}
use theclub_api.Repositories.Wallets.{credit}
use theclub_api.Repositories.Ledger.{Appended, append-eq-ok}
use theclub_api.Services.Roulette.{credit_payout, append_payout}

module _ (w : World) (settings : Settings) (wallet_id : ℕ) (payout : ℤ) where
  -- A positive payout is credited; otherwise nothing is done.
  abbrev pub Paid : Option ℤ → Db → Db → Type 0
  Paid b db after =
      ((pos 0 <ℤ payout)
        × (balance : ℤ) × (b ≡ some balance)
        × (credit wallet_id (euros payout) db ≡ (ok balance, after)))
      ⊎ ((payout ≤ℤ pos 0) × (b ≡ none) × (after ≡ db))

  pub credit_payout-cases :
      (db after : Db) (b : Option ℤ)
      → credit_payout w settings wallet_id payout db ≡ (ok b, after)
      → Paid b db after
  unfolding credit_payout
  credit_payout-cases db after b h = elim (Bool-cases (ltb_ℤ (pos 0) payout)) [
    | inl positive ↦ bind_returned _ _ _ _ _ (rw positive at h) λ balance u e k.
        inl (
          ground arith,
          balance,
          sym (returned_eq k).0,
          e ∙ (λ i. (ok balance, (returned_eq k).1 i)),
        )
    | inr other ↦ let k = returned_eq (rw other at h) in inr (ground arith, sym k.0, sym k.1)
  ]

  pub append_payout-some :
      (round_id : ℕ) (balance : ℤ) (db after : Db) (id : Option ℕ)
      → pos 0 <ℤ payout
      → append_payout w settings wallet_id payout (some balance) round_id db ≡ (ok id, after)
      → (entry : LedgerEntry) × Appended wallet_id payout balance entry db after
  unfolding append_payout
  append_payout-some round_id balance db after id p h =
      let positive : ltb_ℤ (pos 0) payout ≡ true = ground arith in
      bind_returned _ _ _ _ _ (rw positive at h) λ entry u e k. (
        entry,
        append-eq-ok w wallet_id _ balance _ _ _ entry db after
            (e ∙ (λ i. (ok entry, (returned_eq k).1 i))),
      )

  pub append_payout-none :
      (round_id : ℕ) (db after : Db) (id : Option ℕ)
      → payout ≤ℤ pos 0
      → append_payout w settings wallet_id payout none round_id db ≡ (ok id, after)
      → after ≡ db
  unfolding append_payout
  append_payout-none round_id db after id p h =
      let other : ltb_ℤ (pos 0) payout ≡ false = ground arith in sym (returned_eq (rw other at h)).1

abbrev pub HasStake : PlacedBet → Type 0
HasStake bet = pos 0 ≤ℤ bet.stake.minor

resolve_bet_nonneg :
    (bet : PlacedBet) (o : ℕ) (r : ResolvedBet)
    → HasStake bet
    → resolve_bet bet o ≡ ok r
    → pos 0 ≤ℤ r.payout.minor
unfolding resolve_bet times zero_money
resolve_bet_nonneg bet o r s h = elim (covered_numbers-cases bet.bet_type bet.selection) [
  | inl (c, shape) ↦
      ground
        (arith, shape, *ℤ_pos_parts bet.stake.minor ((bet_specs bet.bet_type).payout_ratio + 1))
  | inr refused ↦ ground (arith, refused)
]

-- What a round pays in all is not negative.
pub total_payout_nonneg :
    (bets : List PlacedBet) (o : ℕ) (resolved : List ResolvedBet)
    → All HasStake bets
    → resolve_bets bets o ≡ ok resolved
    → pos 0 ≤ℤ total_payout resolved
unfolding resolve_bets total_payout sum_ℤ
total_payout_nonneg [] o resolved s h =
    let e : [] ≡ resolved = ok_injective h in rw (← e) (omega arith)
total_payout_nonneg (bet ∷ bets) o resolved s h =
    let (r, e1, h1) = result_returned (resolve_bet bet o) _ h in
    let (rs, e2, h2) = result_returned (resolve_bets bets o) _ h1 in
    let e : r ∷ rs ≡ resolved = ok_injective h2 in
    rw (← e)
      (omega (int_laws, resolve_bet_nonneg bet o r s.0 e1, total_payout_nonneg bets o rs s.1 e2))
