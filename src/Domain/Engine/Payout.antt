-- ===== src/Domain/Engine/Payout.antt =====
-- What a round pays, over all outcomes of the wheel.
use native.Mathlib.Nat.{mul_comm}
use theclub_api.Prelude.{
  ℕ, ◌+◌, ◌*◌, ◌≡◌, refl, ap, ◌∙◌, Bool, List, [], ◌∷◌, map, All, arith, if◌then◌else◌, count,
  range_from, ℤ, pos, ◌+ℤ◌, ◌*ℤ◌, int_laws, *ℤ_pos_parts, *ℤ_pos_assoc, +ℤ_*ℤ_pos, sum_ℤ, inl, inr,
  Bool-cases,
}
use theclub_api.Result.{Result, ok, err}
use theclub_api.Domain.Money.{zero_money, times}
use theclub_api.Domain.Table.{BetType, bet_specs, pocket_count}
use theclub_api.Domain.Bets.{PlacedBet, contains_ℤ, covered_numbers, IsShaped}
use theclub_api.Domain.Bets.Coverage.{pockets_in_lem, covered_numbers_coverage}
use theclub_api.Domain.Engine.{ResolvedBet, resolve_bet, resolve_bets, total_payout, total_stake}

-- What `resolve_bets` pays out in all; nothing where it raises.
abbrev pub paid : Result (List ResolvedBet) → ℤ
paid (ok resolved) = total_payout resolved
paid (err _) = pos 0

-- Every bet of the table, if it is laid on each of the 37 pockets in turn, pays 36 stakes.
coverage-payout : (t : BetType) → (bet_specs t).coverage * ((bet_specs t).payout_ratio + 1) ≡ 36
unfolding bet_specs
coverage-payout BetType.straight = refl
coverage-payout _ = refl

-- over a list of outcomes
unfoldable pub paid_over : List PlacedBet → List ℕ → ℤ
paid_over bets outcomes = sum_ℤ (map (λ o. paid (resolve_bets bets o)) outcomes)

abbrev win : Bool → ℤ → ℤ
win won amount = if won then amount else pos 0

-- the wins of one covered set, summed over outcomes
wins : List ℤ → ℤ → List ℕ → ℤ
wins s amount outcomes = sum_ℤ (map (λ o. win (contains_ℤ s (pos o)) amount) outcomes)

wins-count :
    (s : List ℤ) (amount : ℤ) (outcomes : List ℕ)
    → wins s amount outcomes ≡ amount *ℤ pos (count (λ o. contains_ℤ s (pos o)) outcomes)
unfolding wins sum_ℤ
wins-count s amount [] = grind (int_laws, *ℤ_pos_parts amount 0)
wins-count s amount (o ∷ os) = elim (Bool-cases (contains_ℤ s (pos o))) [
  | inl hit ↦ rw (hit, wins-count s amount os) (grind (int_laws, *ℤ_pos_parts))
  | inr miss ↦ rw (miss, wins-count s amount os) (grind (int_laws, *ℤ_pos_parts))
]

paid-cons :
    (bet : PlacedBet) (bets : List PlacedBet) (s : List ℤ) (o : ℕ)
    → covered_numbers bet.bet_type bet.selection ≡ ok s
    → (rest : List ResolvedBet) → resolve_bets bets o ≡ ok rest
    → paid (resolve_bets (bet ∷ bets) o)
      ≡ win
          (contains_ℤ s (pos o))
          (bet.stake.minor *ℤ pos ((bet_specs bet.bet_type).payout_ratio + 1))
        +ℤ paid (resolve_bets bets o)
unfolding resolve_bets resolve_bet zero_money times total_payout sum_ℤ
paid-cons bet bets s o shape rest e = rw (shape, e) (ground arith)

resolve_bet-total :
    (bet : PlacedBet) (o : ℕ) → IsShaped bet → (r : ResolvedBet) × (resolve_bet bet o ≡ ok r)
unfolding resolve_bet
resolve_bet-total bet o (s, shape) = rw shape (_, refl)

-- Bets of a valid shape are resolved without an error.
pub resolve_bets-total :
    (bets : List PlacedBet) (o : ℕ)
    → All IsShaped bets
    → (rest : List ResolvedBet) × (resolve_bets bets o ≡ ok rest)
unfolding resolve_bets
resolve_bets-total [] o h = ([], refl)
resolve_bets-total (bet ∷ bets) o h =
    let (r, d) = resolve_bet-total bet o h.0 in
    let (rest, e) = resolve_bets-total bets o h.1 in (r ∷ rest, rw (d, e))

paid_over-cons :
    (bet : PlacedBet) (bets : List PlacedBet) (s : List ℤ) (outcomes : List ℕ)
    → covered_numbers bet.bet_type bet.selection ≡ ok s
    → All IsShaped bets
    → paid_over (bet ∷ bets) outcomes
      ≡ wins s (bet.stake.minor *ℤ pos ((bet_specs bet.bet_type).payout_ratio + 1)) outcomes
        +ℤ paid_over bets outcomes
unfolding paid_over wins sum_ℤ
paid_over-cons bet bets s [] shape h = omega int_laws
paid_over-cons bet bets s (o ∷ os) shape h =
    let (rest, e) = resolve_bets-total bets o h in
    rw (paid-cons bet bets s o shape rest e, paid_over-cons bet bets s os shape h) (omega int_laws)

wins_covered :
    (bet : PlacedBet) (s : List ℤ)
    → covered_numbers bet.bet_type bet.selection ≡ ok s
    → wins s
        (bet.stake.minor *ℤ pos ((bet_specs bet.bet_type).payout_ratio + 1))
        (range_from 0 pocket_count)
      ≡ bet.stake.minor *ℤ pos 36
wins_covered bet s shape =
    wins-count s _ (range_from 0 pocket_count)
    ∙ *ℤ_pos_assoc bet.stake.minor _ _
    ∙ ap (λ n. bet.stake.minor *ℤ pos n) product
  where
    size :
        count (λ o. contains_ℤ s (pos o)) (range_from 0 pocket_count)
        ≡ (bet_specs bet.bet_type).coverage
    size = pockets_in_lem s ∙ covered_numbers_coverage bet.bet_type bet.selection s shape

    product :
        ((bet_specs bet.bet_type).payout_ratio + 1)
          * count (λ o. contains_ℤ s (pos o)) (range_from 0 pocket_count)
        ≡ 36
    product =
        ap (λ n. ((bet_specs bet.bet_type).payout_ratio + 1) * n) size
        ∙ mul_comm _ _
        ∙ coverage-payout bet.bet_type

-- Whatever the bets of a valid shape and their stakes, the payouts over all 37 outcomes add up to 36
-- times what was staked: the house keeps one part in 37, on every bet type alike.
pub resolve_bets_house_edge :
    (bets : List PlacedBet)
    → All IsShaped bets
    → paid_over bets (range_from 0 pocket_count) ≡ total_stake bets *ℤ pos 36
unfolding total_stake sum_ℤ
resolve_bets_house_edge [] h = unfold paid_over resolve_bets total_payout ◌*ℤ◌ ◌+ℤ◌ in refl
resolve_bets_house_edge (bet ∷ bets) h =
    let (s, shape) = h.0 in
    rw
      (
        paid_over-cons bet bets s (range_from 0 pocket_count) shape h.1,
        resolve_bets_house_edge bets h.1,
        +ℤ_*ℤ_pos,
      )
      (ap (λ x. x +ℤ total_stake bets *ℤ pos 36) (wins_covered bet s shape))
