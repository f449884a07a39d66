-- ===== src/Services/Roulette/Events.antt =====
-- app/services/roulette.py, `_enqueue_round_events`: the reports of a round.
use theclub_api.Prelude.{ℕ, String, Option, none, some, List, [], ◌∷◌, map, ℤ, ◌-ℤ◌, neg_ℤ}
use theclub_api.Result
use theclub_api.Result.{
  Result, ok, err, data_integrity, value_error, assertion_error, out_of_fuel, or_raise,
}
use theclub_api.Exec.{Exec, lift, pure, ◌>>=◌, ◌>>◌}
use theclub_api.Domain.Engine.{ResolvedBet}
use theclub_api.Config.{Settings}
use theclub_api.Events.Schemas.{
  WalletTransactionKind, RefType, SettledBet, EventData, bet_placed, round_settled,
  wallet_transaction,
}
use theclub_api.Events.Outbox.{emit}
use theclub_api.Db.{Db, Bet}
use theclub_api.World.{World}

-- `_RoundContext`: the fields that `_enqueue_round_events` reads
pub record RoundContext : Type 0 where
  pub user_id : ℕ
  pub wallet_id : ℕ
  pub round_id : ℕ
  pub seed_pair_id : ℕ
  pub nonce : ℕ
  pub outcome : ℕ
  pub bet_rows : List (ℕ × Bet)
  pub resolved : List ResolvedBet
  pub total_stake : ℤ
  pub total_payout : ℤ
  pub stake_entry_id : ℕ
  pub payout_entry_id : Option ℕ
  pub balance_after_stake : ℤ
  pub balance_after_payout : Option ℤ
  pub currency : String
  pub idempotency_key : String

-- `zip(ctx.bet_rows, ctx.resolved, strict=True)`
unfoldable pub zip_strict : List (ℕ × Bet) → List ResolvedBet → Result (List (ℕ × ResolvedBet))
zip_strict [] [] = ok []
zip_strict (row ∷ rows) (r ∷ rs) =
    Result.◌>>=◌ (zip_strict rows rs) (λ rest. ok ((row.0, r) ∷ rest))
zip_strict _ _ = err value_error

abbrev settled_bet : ℕ × ResolvedBet → SettledBet
settled_bet (bet_id, r) = record {
  bet_id = bet_id;
  bet_type = r.bet.bet_type;
  selection = r.bet.selection;
  stake_minor = r.bet.stake.minor;
  payout_minor = r.payout.minor;
  won = r.won;
}

module _ (w : World) (settings : Settings) where
  -- the loop that reports each bet
  unfoldable pub emit_bets : RoundContext → List (ℕ × ResolvedBet) → Exec Db (Unit {0})
  emit_bets ctx [] = pure tt
  emit_bets ctx ((bet_id, r) ∷ rest) = do
    emit w settings.kafka_topic_prefix
        (bet_placed (record {
          round_id = ctx.round_id;
          bet_id = bet_id;
          user_id = ctx.user_id;
          bet_type = r.bet.bet_type;
          selection = r.bet.selection;
          stake_minor = r.bet.stake.minor;
          currency = ctx.currency;
        }))
        (some ctx.idempotency_key) ctx.user_id
    emit_bets ctx rest

  abbrev transaction_event : RoundContext → ℕ → WalletTransactionKind → ℤ → ℤ → EventData
  transaction_event ctx id kind amount balance = wallet_transaction (record {
    transaction_id = id;
    user_id = ctx.user_id;
    wallet_id = ctx.wallet_id;
    kind = kind;
    amount_minor = amount;
    balance_after_minor = balance;
    currency = ctx.currency;
    ref_type = some RefType.round;
    ref_id = some ctx.round_id;
  })

  -- the report of the payout, where there was one; the `assert` is AssertionError
  unfoldable pub emit_payout : RoundContext → Option ℕ → Option ℤ → Exec Db (Unit {0})
  emit_payout ctx none balance = pure tt
  emit_payout ctx (some id) none = lift (err assertion_error)
  emit_payout ctx (some id) (some balance) =
      emit w settings.kafka_topic_prefix
        (transaction_event ctx id WalletTransactionKind.bet_payout ctx.total_payout balance)
        (some ctx.idempotency_key) ctx.user_id

  -- `_enqueue_round_events`
  unfoldable pub enqueue_round_events : RoundContext → Exec Db (Unit {0})
  enqueue_round_events ctx = do
    pairs ← lift (zip_strict ctx.bet_rows ctx.resolved)
    emit_bets ctx pairs
    emit w settings.kafka_topic_prefix
        (round_settled (record {
          round_id = ctx.round_id;
          user_id = ctx.user_id;
          seed_pair_id = ctx.seed_pair_id;
          nonce = ctx.nonce;
          outcome = ctx.outcome;
          bets = map settled_bet pairs;
          total_stake_minor = ctx.total_stake;
          total_payout_minor = ctx.total_payout;
          net_minor = ctx.total_payout -ℤ ctx.total_stake;
          currency = ctx.currency;
        }))
        (some ctx.idempotency_key) ctx.user_id
    emit w settings.kafka_topic_prefix
        (transaction_event ctx ctx.stake_entry_id WalletTransactionKind.bet_stake
          (neg_ℤ ctx.total_stake) ctx.balance_after_stake)
        (some ctx.idempotency_key) ctx.user_id
    emit_payout ctx ctx.payout_entry_id ctx.balance_after_payout
