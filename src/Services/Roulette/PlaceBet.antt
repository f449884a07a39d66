-- ===== src/Services/Roulette/PlaceBet.antt =====
-- What a call of `place_bet` that returned has done: to the balances, to the ledger, and by which nonce.
use theclub_api.Prelude.{
  ℕ, String, ◌≡◌, refl, sym, ap, ◌∙◌, ◌+◌, some, List, [], ◌∷◌, map, All, ℤ, pos, ◌≤ℤ◌, ◌+ℤ◌, sum_ℤ,
  int_laws, subst,
}
use theclub_api.Result.{ok, >>=-eq-ok as result_returned}
use theclub_api.Exec.{bind_returned}
use theclub_api.Rows.{find_id, select, scalar_one_or_none}
use theclub_api.Domain.Money.{euros}
use theclub_api.Domain.Bets.{PlacedBet, validate_bet}
use theclub_api.Domain.Bets.Validation.{validate_bet_iff}
use theclub_api.Domain.Engine.{ResolvedBet, spin, total_stake, total_payout}
use theclub_api.Db.{Db, Wallet, SeedPair}
use theclub_api.Config.{Settings}
use theclub_api.World.{World}
use theclub_api.Repositories.Wallets.{debit-eq-ok}
use theclub_api.Repositories.SeedPairs.{get_active_by_user_id, is_active_of, consume_nonce-eq-ok}
use theclub_api.Services.Wallet.Balanced.{money, IsBalanced}
use theclub_api.Services.Wallet.{require_wallet}
use theclub_api.Services.Wallet.Deposit.{require_wallet-eq-ok}
use theclub_api.Services.Roulette.{
  BetRequest, PlaceBetResult, place, bet_view, place_bet, play, validate_bets,
}
use theclub_api.Services.Roulette.Trace.{Played, play-Played}
use theclub_api.Services.Roulette.Payment.{HasStake}
use theclub_api.Services.Roulette.Settled.{Settled, Played-Settled}
use theclub_api.Services.Roulette.Entries.{Played-IsBalanced}

-- Bets that passed the validation at a table with a lower limit of zero or more have a stake.
validated_stakes :
    (bets : List PlacedBet) (lo hi : ℤ)
    → pos 0 ≤ℤ lo
    → validate_bets bets (euros lo) (euros hi) ≡ ok tt
    → All HasStake bets
unfolding validate_bets
validated_stakes [] lo hi positive h = tt
validated_stakes (bet ∷ bets) lo hi positive h =
    let (u, e, rest) = result_returned (validate_bet bet (euros lo) (euros hi)) _ h in
    let limits = (validate_bet_iff bet (euros lo) (euros hi) refl).0 e in
    (omega (int_laws, positive, limits.1), validated_stakes bets lo hi positive rest)

-- The sum of the stakes of the placed bets is that of the requests, and the sum of the payouts that of
-- the bets that are shown.
total_stake-place :
    (requests : List BetRequest)
    → total_stake (map place requests) ≡ sum_ℤ (map (λ r. r.stake_minor) requests)
unfolding total_stake sum_ℤ
total_stake-place [] = refl
total_stake-place (r ∷ requests) = ap (λ s. r.stake_minor +ℤ s) (total_stake-place requests)

total_payout-bet_view :
    (resolved : List ResolvedBet)
    → total_payout resolved ≡ sum_ℤ (map (λ b. b.payout_minor) (map bet_view resolved))
unfolding total_payout sum_ℤ
total_payout-bet_view [] = refl
total_payout-bet_view (r ∷ resolved) =
    ap (λ s. r.payout.minor +ℤ s) (total_payout-bet_view resolved)

module _ (w : World) (settings : Settings) (user_id : ℕ) (key : String) (requests : List BetRequest)
    (db after : Db) (result : PlaceBetResult) where
  -- a call that returned found a wallet and played the requests, all of them valid
  pub place_bet-Played :
      place_bet w settings user_id key requests db ≡ (ok result, after)
      → (wallet : ℕ × Wallet) × (require_wallet user_id db ≡ (ok wallet, db))
        × (validate_bets
              (map place requests)
              (euros settings.table_min_bet_minor)
              (euros settings.table_max_bet_minor)
            ≡ ok tt)
        × Played w settings user_id (map place requests) wallet db after result
  unfolding place_bet
  place_bet-Played h = bind_returned _ _ _ _ _ h λ _ db1 e1 h1.
      bind_returned _ _ _ _ _ h1 λ wallet db2 e2 h2.
        let valid : validate_bets (map place requests) _ _ ≡ ok tt = ap (λ p. p.0) e1 in
        let same : db1 ≡ db = ap (λ p. p.1) (sym e1) in
        let same' : db2 ≡ db1 = require_wallet-eq-ok user_id db1 db2 wallet e2 in
        (
          wallet,
          subst (λ d. require_wallet user_id d ≡ (ok wallet, d)) same
              (e2 ∙ (λ i. (ok wallet, same' i))),
          valid,
          play-Played w settings user_id key _ wallet db after result
              (ap (play w settings user_id key _ wallet) (sym (same' ∙ same)) ∙ h2),
        )

  -- Where the table's lower limit is not negative, a call of `place_bet` that returned found the
  -- wallet of the user, which held the total stake; the wallet ends with the balance that the result
  -- reports, which is the old one less the total stake plus the total payout and is not negative; the
  -- net of the result is total payout less total stake; every other wallet is as it was; the total
  -- stake is the sum of the stakes of the requests, and the total payout that of the payouts of the
  -- bets in the result.
  pub place_bet-Settled :
      place_bet w settings user_id key requests db ≡ (ok result, after)
      → pos 0 ≤ℤ settings.table_min_bet_minor
      → (wallet : ℕ × Wallet) × (require_wallet user_id db ≡ (ok wallet, db))
        × Settled wallet.0 db after result
        × (result.total_stake_minor ≡ sum_ℤ (map (λ r. r.stake_minor) requests))
        × (result.total_payout_minor ≡ sum_ℤ (map (λ b. b.payout_minor) result.bets))
  place_bet-Settled h positive =
      let (wallet, found, valid, played) = place_bet-Played h in
      (
        wallet,
        found,
        Played-Settled played (validated_stakes (map place requests) _ _ positive valid),
        played.result_stake ∙ played.is_stake ∙ total_stake-place requests,
        played.result_payout
            ∙ played.is_payout
            ∙ total_payout-bet_view played.resolved
            ∙ ap (λ bs. sum_ℤ (map (λ b. b.payout_minor) bs)) (sym played.result_bets),
      )

  -- Where the table's lower limit is not negative, a call of `place_bet` that returned keeps the
  -- balance of every wallet equal to the sum of its ledger entries.
  pub place_bet-IsBalanced :
      place_bet w settings user_id key requests db ≡ (ok result, after)
      → pos 0 ≤ℤ settings.table_min_bet_minor
      → IsBalanced (money db)
      → IsBalanced (money after)
  place_bet-IsBalanced h positive =
      let (wallet, found, valid, played) = place_bet-Played h in
      Played-IsBalanced played (validated_stakes (map place requests) _ _ positive valid)

  -- The outcome of a call of `place_bet` that returned is the one that the two seeds of the user's
  -- active seed pair and a nonce one above the nonce of that pair's row give.
  pub place_bet-spin :
      place_bet w settings user_id key requests db ≡ (ok result, after)
      → (pair : ℕ × SeedPair) × (row : SeedPair) × (get_active_by_user_id user_id db
          ≡ (ok (some pair), db))
        × (find_id pair.0 db.seed_pairs ≡ some row)
        × (spin w.hmac w.spin_fuel (record {
          server_seed = pair.1.server_seed;
          client_seed = pair.1.client_seed;
          nonce = row.nonce + 1;
        })
            ≡ some result.outcome)
  unfolding get_active_by_user_id
  place_bet-spin h =
      let (wallet, found, valid, p) = place_bet-Played h in
      let (wal, found_wal, covered, sum, nonneg, r) =
        debit-eq-ok wallet.0 (euros p.stake) db p.db1 p.b1 p.debited in
      let same : p.db1.seed_pairs ≡ db.seed_pairs = ap (λ (d : Db). d.seed_pairs) r in
      let (row, found_row, next, _) = consume_nonce-eq-ok p.pair.0 p.db1 p.db2 p.nonce p.consumed in
      (
        p.pair,
        row,
        λ i. (
          (ap (λ rows. scalar_one_or_none (select (is_active_of user_id) rows)) (sym same)
                ∙ ap (λ x. x.0) p.active)
              i,
          db,
        ),
        ap (find_id p.pair.0) (sym same) ∙ found_row,
        ap
              (λ n. spin w.hmac w.spin_fuel (record {
                server_seed = p.pair.1.server_seed;
                client_seed = p.pair.1.client_seed;
                nonce = n;
              }))
              (sym next)
            ∙ p.spun,
      )
