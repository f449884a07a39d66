-- ===== src/Tests/Services.antt =====
-- A round and a deposit.
use theclub_api.Services.Roulette.Events.{emit_bets, emit_payout, enqueue_round_events, zip_strict}
use theclub_api.Prelude.{
  map, any, ◌==◌, ℕ, ◌≤◌, none, ◌≡◌, refl, true, false, some, [], ◌∷◌, pos, ◌≤ℤ◌, arith,
}
use theclub_api.Result.{ok}
use theclub_api.Domain.Table.{BetType}
use theclub_api.Domain.Bets.{numbers}
use theclub_api.Db.{Db, Wallet}
use theclub_api.Services.Wallet.{BalanceView, deposit, require_wallet}
use theclub_api.Services.Wallet.Returns.{IsWritable, deposit-Returns}
use theclub_api.Services.Wallet.Deposit.{Deposited}
use theclub_api.Services.Wallet.Balanced.{money, IsBalanced}
use theclub_api.Services.Roulette.{PlaceBetResult, place_bet}
use theclub_api.Tests.Data.{world, settings, db, requests, wallet, seed_pair}
use theclub_api.Exec.{◌>>=◌}
use theclub_api.Services.Roulette.{validate_bets, play, append_payout, credit_payout}
use theclub_api.Domain.Bets.{
  validate_bet, covered_numbers, fixed_selections, index_selections, numbers_selections,
}
use theclub_api.Services.Wallet.{require_wallet}
use theclub_api.Repositories.Wallets.{get_by_user_id, debit, credit, write_balance}
use theclub_api.Domain.Engine.{total_stake, spin, resolve_bet, resolve_bets, total_payout}
use theclub_api.Prelude.{map, any, ◌==◌, sum_ℤ, ◌+ℤ◌, ◌-ℤ◌, neg_ℤ, ◌*ℤ◌}
use theclub_api.Db.{fits_bigint}
use theclub_api.Repositories.SeedPairs.{get_active_by_user_id, consume_nonce}
use theclub_api.Domain.Fairness.{derive_outcome, attempt, decimal, message, uniform_below}
use theclub_api.Domain.Money.{less, times, zero_money}
use theclub_api.Domain.Table.{
  bet_specs, column_by_index, columns, corners, dozen_by_index, lines, number_at, position, splits,
  streets,
}
use theclub_api.Events.Outbox.{emit, enqueue_event, new_envelope}
use theclub_api.Events.Schemas.{build, event_topic_suffix, is_invalid}
use theclub_api.Repositories.Ledger.{append, insert_entry}
use theclub_api.Repositories.Rounds.{create_settled_round, insert_bet, insert_bets, insert_round}
use theclub_api.Rows.{find_id, insert_row, set_id}
use theclub_api.Services.Roulette.Settled.{Settled}
use theclub_api.Services.Roulette.PlaceBet.{place_bet-Settled, place_bet-IsBalanced}
use theclub_api.Services.Fairness.{RotateSeedView, get_current_seed, rotate_seed, hex}
use theclub_api.Services.Fairness.Returns.{rotate_seed-Returns}
use theclub_api.Repositories.Ledger.{ledger_sum}
use theclub_api.Repositories.SeedPairs.{reveal_and_deactivate, create_active, insert_active}
use theclub_api.Domain.Money.{euros}

abbrev pub round_after : Db
round_after = (place_bet world settings 7 "key" requests db).1

abbrev pub round_result : PlaceBetResult
round_result = record {
  round_id = 1001;
  outcome = 17;
  bets =
      record {
        bet_type = BetType.straight;
        selection = ("numbers", numbers (pos 17 ∷ [])) ∷ [];
        stake_minor = pos 10;
        payout_minor = pos 360;
        won = true;
      }
      ∷ record {
        bet_type = BetType.red;
        selection = [];
        stake_minor = pos 20;
        payout_minor = pos 0;
        won = false;
      }
      ∷ [];
  total_stake_minor = pos 30;
  total_payout_minor = pos 360;
  net_minor = pos 330;
  balance_minor = pos 1330;
}

pub round_run : place_bet world settings 7 "key" requests db ≡ (ok round_result, round_after)
unfolding place_bet ◌>>=◌ validate_bets validate_bet covered_numbers require_wallet get_by_user_id
    play debit total_stake sum_ℤ ◌+ℤ◌ fits_bigint ◌-ℤ◌ get_active_by_user_id consume_nonce spin
    derive_outcome fixed_selections index_selections numbers_selections resolve_bet resolve_bets
    total_payout attempt decimal message uniform_below less times zero_money bet_specs
    column_by_index columns corners dozen_by_index lines number_at position splits streets emit
    enqueue_event new_envelope build event_topic_suffix is_invalid neg_ℤ ◌*ℤ◌ append insert_entry
    create_settled_round insert_bet insert_bets insert_round credit write_balance insert_row set_id
    append_payout credit_payout emit_bets emit_payout enqueue_round_events zip_strict
round_run = refl

pub limit_nonneg : pos 0 ≤ℤ settings.table_min_bet_minor
limit_nonneg = ground arith

pub db-IsBalanced : IsBalanced (money db)
unfolding ledger_sum sum_ℤ ◌+ℤ◌
db-IsBalanced k wal found = ground arith

place_bet-Settled_example :
    (found : ℕ × Wallet) × (require_wallet 7 db ≡ (ok found, db))
    × Settled found.0 db round_after round_result
    × (round_result.total_stake_minor ≡ sum_ℤ (map (λ r. r.stake_minor) requests))
    × (round_result.total_payout_minor ≡ sum_ℤ (map (λ b. b.payout_minor) round_result.bets))
place_bet-Settled_example =
    place_bet-Settled world settings 7 "key" requests db round_after round_result round_run
      limit_nonneg

place_bet-IsBalanced_example : IsBalanced (money round_after)
place_bet-IsBalanced_example =
    place_bet-IsBalanced world settings 7 "key" requests db round_after round_result round_run
      limit_nonneg db-IsBalanced

abbrev deposit_after : Db
deposit_after = (deposit world settings 7 "key" (pos 500) db).1

abbrev deposit_view : BalanceView
deposit_view = record { balance_minor = pos 1500; currency = "EUR" }

deposit_run : deposit world settings 7 "key" (pos 500) db ≡ (ok deposit_view, deposit_after)
unfolding deposit ◌>>=◌ require_wallet get_by_user_id fits_bigint ◌+ℤ◌ emit enqueue_event
    new_envelope build event_topic_suffix is_invalid append insert_entry credit write_balance
    insert_row set_id
deposit_run = refl

abbrev debit_after : Db
debit_after = (debit 5 (euros (pos 30)) db).1

debit_run : debit 5 (euros (pos 30)) db ≡ (ok (pos 970), debit_after)
unfolding debit write_balance fits_bigint ◌-ℤ◌ ◌+ℤ◌ neg_ℤ set_id
debit_run = refl

abbrev rotate_after : Db
rotate_after = (rotate_seed world 7 db).1

abbrev rotate_view : RotateSeedView
rotate_view = record {
  revealed_server_seed = b'0' ∷ b'1' ∷ [];
  revealed_server_seed_hash = b'h' ∷ 1 ∷ [];
  new_server_seed_hash = b'h' ∷ 1 ∷ [];
  new_client_seed = 2 ∷ [];
}

rotate_run : rotate_seed world 7 db ≡ (ok rotate_view, rotate_after)
unfolding rotate_seed ◌>>=◌ get_active_by_user_id reveal_and_deactivate create_active insert_active
    insert_row set_id hex
rotate_run = refl

active_found : get_active_by_user_id 7 db ≡ (ok (some (3, seed_pair)), db)
unfolding get_active_by_user_id
active_found = refl

free_ids : (n : ℕ) → db.calls ≤ n → find_id (world.uuid4 n) db.seed_pairs ≡ none
free_ids n above = ground arith

rotate_seed-Returns_example :
    (view : RotateSeedView) × (after : Db) × (rotate_seed world 7 db ≡ (ok view, after))
    × (get_current_seed world 7 after ≡ (
      ok (record {
        server_seed_hash = view.new_server_seed_hash;
        client_seed = view.new_client_seed;
        nonce = 0;
      }),
      after,
    ))
rotate_seed-Returns_example =
    rotate_seed-Returns world 7 db (3, seed_pair) ((refl, tt)) active_found free_ids

wallet_found : require_wallet 7 db ≡ (ok (5, wallet), db)
unfolding require_wallet get_by_user_id ◌>>=◌
wallet_found = refl

deposit_fits : fits_bigint (pos 500) ≡ true
unfolding fits_bigint
deposit_fits = refl

total-IsWritable : IsWritable (wallet.balance_minor +ℤ pos 500)
unfolding fits_bigint ◌+ℤ◌
total-IsWritable = (refl, refl)

free_entries : (n : ℕ) → db.calls ≤ n → any (λ e. e.id == world.uuid4 n) db.ledger ≡ false
free_entries n above = ground arith

deposit-Returns_example :
    (after : Db) × (deposit world settings 7 "key" (pos 500) db ≡ (
      ok (record { balance_minor = wallet.balance_minor +ℤ pos 500; currency = wallet.currency }),
      after,
    ))
    × Deposited
        (pos 500)
        db
        after
        (record { balance_minor = wallet.balance_minor +ℤ pos 500; currency = wallet.currency })
deposit-Returns_example =
    deposit-Returns world settings 7 "key" (pos 500) db (5, wallet) ((refl, tt)) wallet_found refl
      deposit_fits total-IsWritable (λ n above. refl) free_entries
