-- ===== src/Tests/Concurrent.antt =====
-- Two equal deposits at once: the first reserves the key and does its work, the second is answered.
use theclub_api.Prelude.{
  List, map, ℤ, ◌*◌, ℕ, ◌+◌, ◌≡◌, refl, sym, ◌∙◌, subst, false, ltb, [], ◌∷◌, pos, ◌+ℤ◌,
}
use theclub_api.Exec.{Exec, ◌>>=◌}
use theclub_api.World.Transactions.{in_transaction}
use theclub_api.Json.{Dict, dict}
use theclub_api.Domain.Fairness.{Bytes}
use theclub_api.World.{World}
use theclub_api.Rows.{insert_row, set_id, update_id, delete_id}
use theclub_api.Db.{Db, IdempotencyKey, fits_bigint}
use theclub_api.Events.Schemas.{build, event_topic_suffix, is_invalid}
use theclub_api.Events.Outbox.{emit, enqueue_event, new_envelope}
use theclub_api.Repositories.Outbox.{seconds}
use theclub_api.Repositories.Wallets.{get_by_user_id, credit, write_balance}
use theclub_api.Repositories.Ledger.{append, insert_entry}
use theclub_api.Repositories.IdempotencyKeys.{
  create_pending, insert_key, completed_row, mark_completed, get, delete,
}
use theclub_api.Services.Wallet.{require_wallet, deposit, view_to_dict}
use theclub_api.Services.Idempotency.{
  pending_reclaim_seconds, reserve, try_reserve, reclaim, answer_status, answer_existing,
  resolve_existing, work_and_mark, perform, perform_or_resolve, run_idempotent,
}
use theclub_api.Exec.Frames.{Frames}
use theclub_api.Services.Idempotency.Reserved.{new_row, new_id}
use theclub_api.Services.Idempotency.Replay.{keys}
use theclub_api.Services.Idempotency.Steps.{Phase, reserving, done, answered, advance}
use theclub_api.Services.Idempotency.Concurrent.{
  rows_of, set_phase, IsPrompt, Reachable, start, step,
}
use theclub_api.Services.Idempotency.Concurrent.Once.{Reachable-once, Reachable-answer}
use theclub_api.Api.Deposits.{deposit_work}
use theclub_api.Api.Retry.{deposit_work-Frames}
use theclub_api.Tests.Data.{world, settings, db}
use theclub_api.Tests.Idempotency.{request, work, run_result}

abbrev same_body : ℕ → Bytes × ℕ
same_body i = (request.request_hash, request.ttl_hours)

abbrev State : Type 0
State = Db × (ℕ → Phase)

abbrev move : ℕ → State → State
move i s = let moved = advance world request work (s.1 i) s.0 in (moved.1, set_phase i moved.0 s.1)

abbrev reserved_once : State
reserved_once = move 0 (db, λ i. reserving)

abbrev worked_once : State
worked_once = move 0 reserved_once

abbrev refused : State
refused = move 1 worked_once

abbrev both_ended : State
both_ended = move 1 refused

free-IsPrompt : IsPrompt world request db
free-IsPrompt id row h _ = let bad : [] ≡ (id, row) ∷ [] = h in absurd (cc bad)

one-IsPrompt :
    (s : Db) (id : ℕ) (row : IdempotencyKey)
    → rows_of request s ≡ (id, row) ∷ []
    → ltb (row.created_at + seconds pending_reclaim_seconds) (world.now s.calls) ≡ false
    → IsPrompt world request s
one-IsPrompt s id row only early other_id other h _ =
    let same : (id, row) ∷ [] ≡ (other_id, other) ∷ [] = sym only ∙ h in
    let equal : row ≡ other = cc same in
    subst
      (λ (r : IdempotencyKey).
        ltb (r.created_at + seconds pending_reclaim_seconds) (world.now s.calls) ≡ false)
      equal early

abbrev done_row : IdempotencyKey
done_row = completed_row run_result (new_row world request db)

reserved-IsPrompt : IsPrompt world request reserved_once.0
unfolding advance try_reserve in_transaction reserve create_pending insert_key ◌>>=◌ insert_row
reserved-IsPrompt =
    one-IsPrompt reserved_once.0 (new_id world db) (new_row world request db) refl refl

worked-IsPrompt : IsPrompt world request worked_once.0
unfolding advance try_reserve in_transaction reserve create_pending insert_key ◌>>=◌ insert_row
    work_and_mark mark_completed update_id deposit_work view_to_dict dict deposit require_wallet
    get_by_user_id fits_bigint ◌+ℤ◌ emit enqueue_event new_envelope build event_topic_suffix
    is_invalid append insert_entry credit write_balance set_id run_idempotent perform_or_resolve
    perform
worked-IsPrompt = one-IsPrompt worked_once.0 (new_id world db) done_row refl refl

refused-IsPrompt : IsPrompt world request refused.0
unfolding advance try_reserve in_transaction reserve create_pending insert_key ◌>>=◌ insert_row
    work_and_mark mark_completed update_id deposit_work view_to_dict dict deposit require_wallet
    get_by_user_id fits_bigint ◌+ℤ◌ emit enqueue_event new_envelope build event_topic_suffix
    is_invalid append insert_entry credit write_balance set_id run_idempotent perform_or_resolve
    perform
refused-IsPrompt = one-IsPrompt refused.0 (new_id world db) done_row refl refl

both_ended-Reachable : Reachable world request same_body (λ i. work) db both_ended.0 both_ended.1
both_ended-Reachable =
    step 1 (step 1 (step 0 (step 0 start free-IsPrompt) reserved-IsPrompt) worked-IsPrompt)
      refused-IsPrompt

first_done : both_ended.1 0 ≡ done run_result
unfolding advance try_reserve in_transaction reserve create_pending insert_key ◌>>=◌ insert_row
    work_and_mark mark_completed update_id deposit_work view_to_dict dict deposit require_wallet
    get_by_user_id fits_bigint ◌+ℤ◌ emit enqueue_event new_envelope build event_topic_suffix
    is_invalid append insert_entry credit write_balance set_id resolve_existing get answer_existing
    answer_status run_idempotent perform_or_resolve perform
first_done = refl

second_answered : both_ended.1 1 ≡ answered run_result
unfolding advance try_reserve in_transaction reserve create_pending insert_key ◌>>=◌ insert_row
    work_and_mark mark_completed update_id deposit_work view_to_dict dict deposit require_wallet
    get_by_user_id fits_bigint ◌+ℤ◌ emit enqueue_event new_envelope build event_topic_suffix
    is_invalid append insert_entry credit write_balance set_id resolve_existing get answer_existing
    answer_status run_idempotent perform_or_resolve perform
second_answered = refl

keeps : (i : ℕ) → Frames keys work
keeps i = deposit_work-Frames world settings 7 "key" (pos 500)

Reachable-once_example : ◌≡◌ {A = ℕ} 0 0
Reachable-once_example =
    Reachable-once world request same_body (λ i. work) keeps db refl both_ended.0 both_ended.1
      both_ended-Reachable 0 0 run_result run_result first_done first_done

Reachable-answer_example : (owner : ℕ) × (both_ended.1 owner ≡ done run_result)
Reachable-answer_example =
    Reachable-answer world request same_body (λ i. work) keeps db refl both_ended.0 both_ended.1
      both_ended-Reachable 1 run_result second_answered

-- With a work that takes longer than 30 seconds the second request reclaims the row, and both do
-- their work: twenty seconds pass between two readings of the clock.
abbrev slow_world : World
slow_world = record world { now = λ n. n * 20000000; server_now = λ n. n * 20000000 }

abbrev slow_work : Exec Db Dict
slow_work = deposit_work slow_world settings 7 "key" (pos 500)

abbrev slow_move : ℕ → State → State
slow_move i s =
    let moved = advance slow_world request slow_work (s.1 i) s.0 in
    (moved.1, set_phase i moved.0 s.1)

-- the second request reserves, resolves, retries and works while the first is at work
abbrev slow_end : State
slow_end =
    slow_move 0
      (slow_move 1 (slow_move 1 (slow_move 1 (slow_move 1 (slow_move 0 (db, λ i. reserving))))))

abbrev balances : Db → List ℤ
balances s = map (λ row. row.1.balance_minor) s.wallets

both_worked : balances slow_end.0 ≡ pos 2000 ∷ []
unfolding advance try_reserve in_transaction reserve create_pending insert_key ◌>>=◌ insert_row
    work_and_mark mark_completed update_id deposit_work view_to_dict dict deposit require_wallet
    get_by_user_id fits_bigint ◌+ℤ◌ emit enqueue_event new_envelope build event_topic_suffix
    is_invalid append insert_entry credit write_balance set_id resolve_existing get answer_existing
    answer_status run_idempotent perform_or_resolve perform reclaim delete delete_id
both_worked = refl
