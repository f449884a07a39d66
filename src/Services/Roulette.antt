-- ===== src/Services/Roulette.antt =====
-- app/services/roulette.py: place one or more bets and resolve the round.
pub mod Events
pub mod Trace
pub mod Payment
pub mod Settled
pub mod Entries
pub mod PlaceBet
pub mod ToDict
pub mod History
use theclub_api.Prelude.{
  ℕ, String, Bool, true, false, Option, none, some, List, [], ◌∷◌, map, if◌then◌else◌, ℤ, pos, ◌-ℤ◌,
  neg_ℤ, ltb_ℤ,
}
use theclub_api.Result
use theclub_api.Result.{
  Result, ok, err, data_integrity, value_error, assertion_error, out_of_fuel, or_raise,
}
use theclub_api.Exec.{Exec, lift, pure, ◌>>=◌, ◌>>◌}
use theclub_api.Domain.Money.{Money, euros}
use theclub_api.Domain.Fairness.{SeedMaterial}
use theclub_api.Domain.Table.{BetType}
use theclub_api.Domain.Bets.{Selection, PlacedBet, validate_bet}
use theclub_api.Domain.Engine.{ResolvedBet, spin, resolve_bets, total_stake, total_payout}
use theclub_api.Config.{Settings}
use theclub_api.Events.Schemas.{
  WalletTransactionKind, RefType, SettledBet, EventData, bet_placed, round_settled,
  wallet_transaction,
}
use theclub_api.Events.Outbox.{emit}
use theclub_api.Db.{Db, Wallet, Bet, SeedPair, LedgerEntry}
use theclub_api.World.{World}
use theclub_api.Repositories.Wallets.{debit, credit}
use theclub_api.Repositories.Ledger.{append}
use theclub_api.Repositories.SeedPairs.{get_active_by_user_id, consume_nonce}
use theclub_api.Repositories.Rounds.{ResolvedBetInput, create_settled_round}
use theclub_api.Services.Wallet.{require_wallet}
use theclub_api.Services.Roulette.Events.{RoundContext, enqueue_round_events}

pub record BetRequest : Type 0 where
  pub bet_type : BetType
  pub selection : Selection
  pub stake_minor : ℤ

pub record SettledBetView : Type 0 where
  pub bet_type : BetType
  pub selection : Selection
  pub stake_minor : ℤ
  pub payout_minor : ℤ
  pub won : Bool

pub record PlaceBetResult : Type 0 where
  pub round_id : ℕ
  pub outcome : ℕ
  pub bets : List SettledBetView
  pub total_stake_minor : ℤ
  pub total_payout_minor : ℤ
  pub net_minor : ℤ
  pub balance_minor : ℤ

abbrev place : BetRequest → PlacedBet
place b = record { bet_type = b.bet_type; selection = b.selection; stake = euros b.stake_minor }

-- `for bet in placed_bets: validate_bet(bet, …)`
unfoldable pub validate_bets : List PlacedBet → Money → Money → Result (Unit {0})
validate_bets [] min_bet max_bet = ok tt
validate_bets (bet ∷ bets) min_bet max_bet =
    Result.◌>>◌ (validate_bet bet min_bet max_bet) (validate_bets bets min_bet max_bet)

abbrev bet_input : ResolvedBet → ResolvedBetInput
bet_input r = record {
  bet_type = r.bet.bet_type;
  selection = r.bet.selection;
  stake_minor = r.bet.stake.minor;
  payout_minor = r.payout.minor;
  won = r.won;
}

abbrev bet_view : ResolvedBet → SettledBetView
bet_view r = record {
  bet_type = r.bet.bet_type;
  selection = r.bet.selection;
  stake_minor = r.bet.stake.minor;
  payout_minor = r.payout.minor;
  won = r.won;
}

module _ (w : World) (settings : Settings) where
  -- `if total_payout > 0: balance_after_payout = await wallets.credit(…)`
  unfoldable pub credit_payout : ℕ → ℤ → Exec Db (Option ℤ)
  credit_payout wallet_id payout =
      if ltb_ℤ (pos 0) payout
      then (do balance ← credit wallet_id (euros payout); pure (some balance))
      else pure none

  abbrev final_balance : Option ℤ → ℤ → ℤ
  final_balance none after_stake = after_stake
  final_balance (some after_payout) after_stake = after_payout

  -- `if total_payout > 0:` the second ledger entry, with its `assert`
  unfoldable pub append_payout : ℕ → ℤ → Option ℤ → ℕ → Exec Db (Option ℕ)
  append_payout wallet_id payout none round_id =
      if ltb_ℤ (pos 0) payout then lift (err assertion_error) else pure none
  append_payout wallet_id payout (some balance) round_id =
      if ltb_ℤ (pos 0) payout
      then (do
        entry ←
            append w wallet_id (euros payout) balance WalletTransactionKind.bet_payout
              (some RefType.round) (some round_id)
        pure (some entry.id))
      else pure none

  -- from the debit on, with the placed bets validated
  unfoldable pub play : ℕ → String → List PlacedBet → ℕ × Wallet → Exec Db PlaceBetResult
  play user_id idempotency_key placed_bets wallet = do
    let stake = total_stake placed_bets
    balance_after_stake ← debit wallet.0 (euros stake)
    active ← get_active_by_user_id user_id
    seed_pair ← lift (or_raise active data_integrity)
    nonce ← consume_nonce seed_pair.0
    outcome ← lift (
        or_raise
          (spin w.hmac w.spin_fuel (record {
            server_seed = seed_pair.1.server_seed;
            client_seed = seed_pair.1.client_seed;
            nonce = nonce;
          }))
          out_of_fuel)
    resolved ← lift (resolve_bets placed_bets outcome)
    let payout = total_payout resolved
    balance_after_payout ← credit_payout wallet.0 payout
    created ← create_settled_round w user_id seed_pair.0 nonce outcome (map bet_input resolved)
    stake_entry ←
        append w wallet.0 (euros (neg_ℤ stake)) balance_after_stake WalletTransactionKind.bet_stake
          (some RefType.round) (some created.0)
    payout_entry_id ← append_payout wallet.0 payout balance_after_payout created.0
    enqueue_round_events w settings (record {
      user_id = user_id;
      wallet_id = wallet.0;
      round_id = created.0;
      seed_pair_id = seed_pair.0;
      nonce = nonce;
      outcome = outcome;
      bet_rows = created.1;
      resolved = resolved;
      total_stake = stake;
      total_payout = payout;
      stake_entry_id = stake_entry.id;
      payout_entry_id = payout_entry_id;
      balance_after_stake = balance_after_stake;
      balance_after_payout = balance_after_payout;
      currency = wallet.1.currency;
      idempotency_key = idempotency_key;
    })
    pure (record {
      round_id = created.0;
      outcome = outcome;
      bets = map bet_view resolved;
      total_stake_minor = stake;
      total_payout_minor = payout;
      net_minor = payout -ℤ stake;
      balance_minor = final_balance balance_after_payout balance_after_stake;
    })

  -- `place_bet`
  unfoldable pub place_bet : ℕ → String → List BetRequest → Exec Db PlaceBetResult
  place_bet user_id idempotency_key bet_requests = do
    let placed_bets = map place bet_requests
    lift (
        validate_bets placed_bets (euros settings.table_min_bet_minor)
          (euros settings.table_max_bet_minor))
    wallet ← require_wallet user_id
    play user_id idempotency_key placed_bets wallet
