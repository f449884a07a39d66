-- ===== src/Tests/Idempotency.antt =====
-- Runs with an Idempotency-Key: a deposit of five euros, sent twice, at once and one after the other.
use theclub_api.Prelude.{◌≡◌, refl, [], ◌∷◌, pos}
use theclub_api.Prelude.{◌+ℤ◌}
use theclub_api.Result.{Result, ok, err, key_conflict, value_error}
use theclub_api.Exec.{Exec, raise, ◌>>=◌}
use theclub_api.World.Transactions.{in_transaction}
use theclub_api.Json.{Dict, empty, dict}
use theclub_api.Rows.{insert_row, set_id, update_id, delete_id}
use theclub_api.Db.{Db, fits_bigint}
use theclub_api.Events.Schemas.{build, event_topic_suffix, is_invalid}
use theclub_api.Events.Outbox.{emit, enqueue_event, new_envelope}
use theclub_api.Repositories.Wallets.{get_by_user_id, credit, write_balance}
use theclub_api.Repositories.Ledger.{append, insert_entry}
use theclub_api.Repositories.IdempotencyKeys.{create_pending, insert_key, mark_completed, delete}
use theclub_api.Services.Wallet.{require_wallet, deposit, view_to_dict}
use theclub_api.Services.Idempotency.{
  Request, reserve, try_reserve, work_and_mark, perform, perform_or_resolve, run_idempotent,
}
use theclub_api.Services.Idempotency.Reserved.{after_calls}
use theclub_api.Services.Idempotency.Outcome.{Answered, rest, run_idempotent-Answered}
use theclub_api.Services.Idempotency.AtMostOnce.{run_idempotent-conflict}
use theclub_api.Services.Idempotency.Failed.{run_idempotent-rolled_back}
use theclub_api.Api.Deposits.{deposit_work}
use theclub_api.Api.Retry.{deposit_work-Frames}
use theclub_api.Tests.Data.{world, settings, db}

abbrev pub request : Request
request = record { user_id = 7; key = "key"; request_hash = b'h' ∷ 1 ∷ []; ttl_hours = 24 }

abbrev pub work : Exec Db Dict
work = deposit_work world settings 7 "key" (pos 500)

abbrev pub or_empty : Result Dict → Dict
or_empty (ok body) = body
or_empty (err e) = empty

abbrev pub run_result : Dict
run_result = or_empty (run_idempotent world request work db).0

abbrev run_after : Db
run_after = (run_idempotent world request work db).1

run_once : run_idempotent world request work db ≡ (ok run_result, run_after)
unfolding run_idempotent perform_or_resolve perform in_transaction work_and_mark try_reserve reserve
    create_pending insert_key mark_completed update_id deposit_work view_to_dict dict deposit ◌>>=◌
    require_wallet get_by_user_id fits_bigint ◌+ℤ◌ emit enqueue_event new_envelope build
    event_topic_suffix is_invalid append insert_entry credit write_balance insert_row set_id
run_once = refl

run_idempotent-Answered_example : Answered world request work db run_after run_result
run_idempotent-Answered_example =
    run_idempotent-Answered world request work
      (deposit_work-Frames world settings 7 "key" (pos 500)) db run_after run_result run_once

run_idempotent-conflict_example :
    run_idempotent world (record request { request_hash = b'h' ∷ 2 ∷ [] }) work run_after
    ≡ (err key_conflict, after_calls run_after)
run_idempotent-conflict_example =
    run_idempotent-conflict world request work
      (deposit_work-Frames world settings 7 "key" (pos 500)) db run_after run_result run_once
      run_after refl work (b'h' ∷ 2 ∷ []) refl

-- a deposit that raises after it has written
abbrev broken : Exec Db Dict
broken = work >>= λ _. raise value_error

abbrev broken_after : Db
broken_after = (run_idempotent world request broken db).1

broken_run : run_idempotent world request broken db ≡ (err value_error, broken_after)
unfolding run_idempotent perform_or_resolve perform in_transaction work_and_mark try_reserve reserve
    create_pending insert_key mark_completed update_id deposit_work view_to_dict dict deposit ◌>>=◌
    require_wallet get_by_user_id fits_bigint ◌+ℤ◌ emit enqueue_event new_envelope build
    event_topic_suffix is_invalid append insert_entry credit write_balance insert_row set_id delete
    delete_id
broken_run = refl

run_idempotent-rolled_back_example : rest broken_after ≡ rest db
run_idempotent-rolled_back_example =
    run_idempotent-rolled_back world request broken db broken_after value_error broken_run
