-- ===== src/Domain/Engine.antt =====
-- app/domain/roulette/engine.py: spin, and resolve a round's bets.
pub mod Payout
use theclub_api.Prelude.{
  map, sum_ℤ, ℤ, ℕ, ◌+◌, Option, List, [], ◌∷◌, Bool, true, false, if◌then◌else◌, pos,
}
use theclub_api.Result.{Result, ok, ◌>>=◌}
use theclub_api.Domain.Money.{Money, zero_money, times}
use theclub_api.Domain.Fairness.{Bytes, SeedMaterial, derive_outcome}
use theclub_api.Domain.Table.{bet_specs, pocket_count}
use theclub_api.Domain.Bets.{PlacedBet, contains_ℤ, covered_numbers}

pub record ResolvedBet : Type 0 where
  pub bet : PlacedBet
  pub won : Bool
  pub payout : Money

-- `spin`
unfoldable pub spin : (Bytes → Bytes → Bytes) → ℕ → SeedMaterial → Option ℕ
spin hmac fuel seed = derive_outcome hmac fuel seed pocket_count

-- one pass of the loop of `resolve_bets`
unfoldable pub resolve_bet : PlacedBet → ℕ → Result ResolvedBet
unfolding bet_specs zero_money times
resolve_bet bet outcome = do
  covered ← covered_numbers bet.bet_type bet.selection
  let won = contains_ℤ covered (pos outcome)
  let payout =
      if won
      then times bet.stake (pos ((bet_specs bet.bet_type).payout_ratio + 1))
      else zero_money bet.stake.currency
  ok (record { bet = bet; won = won; payout = payout })

-- `resolve_bets`
unfoldable pub resolve_bets : List PlacedBet → ℕ → Result (List ResolvedBet)
resolve_bets [] outcome = ok []
resolve_bets (bet ∷ bets) outcome = do
  resolved ← resolve_bet bet outcome
  rest ← resolve_bets bets outcome
  ok (resolved ∷ rest)

-- `sum(r.payout.minor for r in resolved)` and `sum(bet.stake.minor for bet in bets)`
unfoldable pub total_payout : List ResolvedBet → ℤ
total_payout resolved = sum_ℤ (map (λ r. r.payout.minor) resolved)

unfoldable pub total_stake : List PlacedBet → ℤ
total_stake bets = sum_ℤ (map (λ b. b.stake.minor) bets)
