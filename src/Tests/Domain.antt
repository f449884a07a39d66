-- ===== src/Tests/Domain.antt =====
-- The rules of the game.
use theclub_api.Prelude.{
  ℕ, ◌/◌, ◌<◌, ◌≡◌, refl, ◌↔◌, All, range_from, some, List, [], ◌∷◌, pos, ◌≤ℤ◌, ◌*ℤ◌, arith,
}
use theclub_api.Result.{ok, err, invalid_bet}
use theclub_api.Domain.Fairness.{
  Bytes, SeedMaterial, chunk_space, uniform_below, attempt, derive_outcome, message, decimal,
}
use theclub_api.Domain.Fairness.Decimal.{NotColon}
use theclub_api.Domain.Fairness.Message.{message-injective}
use theclub_api.Domain.Fairness.Uniform.{tally, yields, uniform_below_unbiased}
use theclub_api.Domain.Fairness.Outcome.{IsFirst, derive_outcome_first}
use theclub_api.Domain.Money.{euros, less}
use theclub_api.Domain.Table.{BetType, pocket_count}
use theclub_api.Domain.Bets.{PlacedBet, covered_numbers, IsShaped, validate_bet, integers}
use theclub_api.Domain.Bets.Shape.{IsFigure}
use theclub_api.Domain.Bets.Validation.{validate_bet_iff}
use theclub_api.Domain.Bets.Figures.{pick, split_iff_neighbour}
use theclub_api.Domain.Engine.{total_stake}
use theclub_api.Domain.Engine.Payout.{paid_over, resolve_bets_house_edge}
use theclub_api.Tests.Data.{hmac}

abbrev seed : SeedMaterial
seed = record { server_seed = 1 ∷ []; client_seed = 2 ∷ []; nonce = 5 }

abbrev digest : Bytes
digest = 0 ∷ 0 ∷ 0 ∷ 17 ∷ []

uniform_below_unbiased_example : tally (yields 37 17) chunk_space ≡ chunk_space / 37
uniform_below_unbiased_example = uniform_below_unbiased 37 17 (ground arith)

digest_run : uniform_below digest 37 ≡ some 17
unfolding uniform_below
digest_run = refl

seed-IsFirst : IsFirst hmac seed 37 0 0 17
unfolding attempt uniform_below message decimal
seed-IsFirst = (refl, λ j l. absurd (ground arith))

derive_outcome_first_example : (derive_outcome hmac 1 seed 37 ≡ some 17) × (17 < 37)
derive_outcome_first_example =
    derive_outcome_first hmac seed 37 1 0 17 (ground arith) (ground arith) seed-IsFirst

seed_run : derive_outcome hmac 1 seed 37 ≡ some 17
unfolding derive_outcome attempt uniform_below message decimal
seed_run = refl

seed-NotColon : All NotColon (b'a' ∷ b'b' ∷ [])
seed-NotColon = (ground arith, (ground arith, tt))

message-injective_example :
    (◌≡◌ {A = Bytes} (b'a' ∷ b'b' ∷ []) (b'a' ∷ b'b' ∷ []))
    × (◌≡◌ {A = ℕ} 12 12)
    × (◌≡◌ {A = ℕ} 3 3)
message-injective_example =
    message-injective (b'a' ∷ b'b' ∷ []) (b'a' ∷ b'b' ∷ []) 12 12 3 3 seed-NotColon seed-NotColon
      refl

abbrev split : PlacedBet
split = record { bet_type = BetType.split; selection = pick (1 ∷ 4 ∷ []); stake = euros (pos 20) }

validate_bet_iff_example : (validate_bet split (euros (pos 10)) (euros (pos 1000)) ≡ ok tt) ↔ (
    (split.stake.currency ≡ (euros (pos 10)).currency)
    × ((euros (pos 10)).minor ≤ℤ split.stake.minor)
    × (split.stake.minor ≤ℤ (euros (pos 1000)).minor)
    × IsFigure split.bet_type split.selection)
validate_bet_iff_example = validate_bet_iff split (euros (pos 10)) (euros (pos 1000)) refl

split_refused : validate_bet split (euros (pos 50)) (euros (pos 1000)) ≡ err invalid_bet
unfolding validate_bet less covered_numbers
split_refused = refl

split_covers : covered_numbers BetType.split (pick (1 ∷ 4 ∷ [])) ≡ ok (integers (1 ∷ 4 ∷ []))
split_covers = split_iff_neighbour 1 4 (ground arith) (ground arith)

abbrev bets : List PlacedBet
bets =
    split
    ∷ record { bet_type = BetType.split; selection = pick (2 ∷ 3 ∷ []); stake = euros (pos 5) }
    ∷ []

bets-IsShaped : All IsShaped bets
bets-IsShaped = (
  (integers (1 ∷ 4 ∷ []), split_covers),
  ((integers (2 ∷ 3 ∷ []), split_iff_neighbour 2 3 (ground arith) (ground arith)), tt),
)

resolve_bets_house_edge_example :
    paid_over bets (range_from 0 pocket_count) ≡ total_stake bets *ℤ pos 36
resolve_bets_house_edge_example = resolve_bets_house_edge bets bets-IsShaped
