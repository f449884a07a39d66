-- ===== src/Tests/Seeds.antt =====
-- A client that reads its seeds, plays, and has them revealed.
use theclub_api.Services.Roulette.Events.{emit_bets, emit_payout, enqueue_round_events, zip_strict}
use theclub_api.Prelude.{◌≡◌, refl, [], ◌∷◌, arith}
use theclub_api.Result.{ok}
use theclub_api.Db.{Db}
use theclub_api.Services.Wallet.{require_wallet}
use theclub_api.Services.Roulette.{place_bet}
use theclub_api.Exec.{◌>>=◌}
use theclub_api.Services.Roulette.{validate_bets, play, append_payout, credit_payout}
use theclub_api.Domain.Bets.{
  validate_bet, covered_numbers, fixed_selections, index_selections, numbers_selections,
}
use theclub_api.Services.Wallet.{require_wallet}
use theclub_api.Repositories.Wallets.{get_by_user_id, debit, credit, write_balance}
use theclub_api.Domain.Engine.{total_stake, spin, resolve_bet, resolve_bets, total_payout}
use theclub_api.Prelude.{sum_ℤ, ◌+ℤ◌, ◌-ℤ◌, neg_ℤ, ◌*ℤ◌}
use theclub_api.Db.{fits_bigint}
use theclub_api.Repositories.SeedPairs.{get_active_by_user_id, consume_nonce}
use theclub_api.Domain.Fairness.{derive_outcome, attempt, decimal, message, uniform_below}
use theclub_api.Domain.Money.{less, times, zero_money}
use theclub_api.Domain.Table.{
  bet_specs, column_by_index, columns, corners, dozen_by_index, lines, number_at, position, splits,
  streets,
}
use theclub_api.Events.Outbox.{emit, enqueue_event, new_envelope}
use theclub_api.Events.Schemas.{build, event_topic_suffix, is_invalid}
use theclub_api.Repositories.Ledger.{append, insert_entry}
use theclub_api.Repositories.Rounds.{create_settled_round, insert_bet, insert_bets, insert_round}
use theclub_api.Rows.{insert_row, set_id}
use theclub_api.Repositories.SeedPairs.{reveal_and_deactivate, create_active, insert_active}
use theclub_api.Prelude.{◌≡◌, refl, arith, [], ◌∷◌}
use theclub_api.Result.{ok}
use theclub_api.Exec.{◌>>=◌}
use theclub_api.Rows.{insert_row, set_id}
use theclub_api.Db.{Db}
use theclub_api.Domain.Fairness.{Bytes}
use theclub_api.Repositories.SeedPairs.{
  get_active_by_user_id, reveal_and_deactivate, create_active, insert_active,
}
use theclub_api.Services.Fairness.{
  CurrentSeedView, RotateSeedView, get_current_seed, rotate_seed, hex,
}
use theclub_api.Services.Fairness.Verified.{
  Course, stop, round, other, IsVerified, IsHashed, rotate_seed-IsVerified, place_bet-Holds,
}
use theclub_api.Tests.Data.{world, settings, db, requests, seed_pair}
use theclub_api.Tests.Services.{round_after, round_result, round_run}

abbrev shown : CurrentSeedView
shown = record { server_seed_hash = b'h' ∷ 1 ∷ []; client_seed = 2 ∷ []; nonce = 4 }

shown_run : get_current_seed world 7 db ≡ (ok shown, db)
unfolding get_current_seed ◌>>=◌ get_active_by_user_id
shown_run = refl

-- the round, and another transaction after it
abbrev played : Db
played = record round_after { started = 7000000 }

played-Course : Course world settings 7 db (round_result ∷ []) played
played-Course = round "key" requests round_run (
    other refl
      (place_bet-Holds world settings 7 "key" requests db round_after round_result 3 seed_pair
        round_run ((refl, tt), refl)).0.0
      stop)

abbrev revealed : Db
revealed = (rotate_seed world 7 played).1

abbrev view : RotateSeedView
view = record {
  revealed_server_seed = b'0' ∷ b'1' ∷ [];
  revealed_server_seed_hash = b'h' ∷ 1 ∷ [];
  new_server_seed_hash = b'h' ∷ 22 ∷ [];
  new_client_seed = 23 ∷ [];
}

revealed_run : rotate_seed world 7 played ≡ (ok view, revealed)
unfolding rotate_seed reveal_and_deactivate create_active insert_active hex place_bet ◌>>=◌
    validate_bets validate_bet covered_numbers require_wallet get_by_user_id play debit total_stake
    sum_ℤ ◌+ℤ◌ fits_bigint ◌-ℤ◌ get_active_by_user_id consume_nonce spin derive_outcome
    fixed_selections index_selections numbers_selections resolve_bet resolve_bets total_payout
    attempt decimal message uniform_below less times zero_money bet_specs column_by_index columns
    corners dozen_by_index lines number_at position splits streets emit enqueue_event new_envelope
    build event_topic_suffix is_invalid neg_ℤ ◌*ℤ◌ append insert_entry create_settled_round
    insert_bet insert_bets insert_round credit write_balance insert_row set_id append_payout
    credit_payout emit_bets emit_payout enqueue_round_events zip_strict
revealed_run = refl

db-IsHashed : IsHashed world db
db-IsHashed id pair found = ground arith

rotate_seed-IsVerified_example :
    (server_seed : Bytes) × (view.revealed_server_seed ≡ hex server_seed)
    × (view.revealed_server_seed_hash ≡ shown.server_seed_hash)
    × (world.sha256_hex server_seed ≡ shown.server_seed_hash)
    × IsVerified world server_seed shown.client_seed shown.nonce (round_result ∷ [])
rotate_seed-IsVerified_example =
    rotate_seed-IsVerified world settings 7 db played revealed shown (round_result ∷ []) view
      ((refl, tt)) db-IsHashed shown_run played-Course revealed_run
