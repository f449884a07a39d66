-- ===== src/Tests/Api.antt =====
-- The routes, the websocket endpoint and the pages at concrete inputs.
use Prim.Native.String.{[] as empty_str, ◌∷◌ as cons_str, ◌++◌ as append_str}
use Prim.Native.Char.{Char}
use theclub_api.Services.Roulette.Events.{emit_bets, emit_payout, enqueue_round_events, zip_strict}
use theclub_api.Prelude.{
  zero, suc, ◌-◌, ◌*ℤ◌, ◌-ℤ◌, neg_ℤ, sum_ℤ, length, List, map, ℕ, ◌≡◌, ◌↔◌, refl, ap, false, none,
  some, [], ◌∷◌, pos, ◌+ℤ◌, String, arith,
}
use theclub_api.Result.{ok}
use theclub_api.Exec.{◌>>=◌}
use theclub_api.World.Transactions.{in_transaction}
use theclub_api.World.{World}
use theclub_api.Json.{Dict, dict, empty}
use theclub_api.Rows.{insert_row, set_id, update_id}
use theclub_api.Db.{Db, User, UserStatus, fits_bigint}
use theclub_api.Events.Schemas.{build, event_topic_suffix, is_invalid}
use theclub_api.Events.Outbox.{emit, enqueue_event, new_envelope}
use theclub_api.Repositories.Wallets.{get_by_user_id, credit, write_balance, debit}
use theclub_api.Repositories.Ledger.{append, insert_entry}
use theclub_api.Repositories.Listing.{entry_place, order_desc}
use theclub_api.Repositories.IdempotencyKeys.{create_pending, insert_key, mark_completed}
use theclub_api.Repositories.SeedPairs.{get_active_by_user_id, consume_nonce}
use theclub_api.Repositories.Rounds.{create_settled_round, insert_bet, insert_bets, insert_round}
use theclub_api.Services.Wallet.{BalanceView, require_wallet, deposit, view_to_dict}
use theclub_api.Services.Wallet.Deposit.{Deposited}
use theclub_api.Services.Roulette.{place_bet, validate_bets, play, append_payout, credit_payout}
use theclub_api.Services.Idempotency.{
  reserve, try_reserve, work_and_mark, perform, perform_or_resolve, run_idempotent,
}
use theclub_api.Domain.Engine.{total_stake, spin, resolve_bet, resolve_bets, total_payout}
use theclub_api.Domain.Fairness.{derive_outcome, attempt, decimal, message, uniform_below}
use theclub_api.Domain.Money.{less, times, zero_money}
use theclub_api.Domain.Bets.{
  validate_bet, covered_numbers, fixed_selections, index_selections, numbers_selections,
}
use theclub_api.Domain.Table.{
  bet_specs, column_by_index, columns, corners, dozen_by_index, lines, number_at, position, splits,
  streets,
}
use theclub_api.Ws.Broadcaster.{publish}
use theclub_api.Ws.RateLimit.{Redis, WsConnectRateLimiter}
use theclub_api.Ws.RateLimit.Window.{RedisLaws, count_allowed, count_allowed-least, least}
use theclub_api.Api.App.{App, notify}
use theclub_api.Api.Rounds.{
  is_key_length, is_round_request, round_work, any_won, any_won_in, count_round, create_round,
}
use theclub_api.Api.Deposits.{is_deposit_request, deposit_work, deposit_route}
use theclub_api.Api.Retry.{reported_again, report_round, create_round-replay}
use theclub_api.Api.DepositOnce.{deposit_route-once}
use theclub_api.Api.Balanced.{create_round-IsBalanced, deposit_route-IsBalanced}
use theclub_api.Services.Wallet.Balanced.{money, IsBalanced}
use theclub_api.Tests.Services.{db-IsBalanced, limit_nonneg}
use theclub_api.Api.Deps.{get_current_user}
use theclub_api.Api.Pagination.{Codec, has_bar, decode_cursor, encode_cursor}
use theclub_api.Api.Pagination.Cursor.{CodecLaws, decode_cursor-encode_cursor}
use theclub_api.Api.Pagination.Complete.{read_all}
use theclub_api.Api.Histories.{transaction_item}
use theclub_api.Api.Histories.Transactions.{
  entries_of, fetch_transactions, list_transactions_complete,
}
use theclub_api.Api.Ws.{Connection, Endpoint, authenticate, ws_endpoint}
use theclub_api.Api.Ws.Released.{occupied, ws_endpoint-occupied}
use theclub_api.Api.Ws.SameUsers.{IsAdmitted, authenticate_iff}
use theclub_api.Security.{decode_access_token}
use theclub_api.Json.{get_key, items}
use theclub_api.Services.Roulette.ToDict.{result_to_dict, bet_to_dict, selection_dict}
use theclub_api.Tests.Data.{world, settings, db, wallet, entry, requests}
use theclub_api.Tests.Idempotency.{or_empty}

abbrev app : App
app = record {
  db = db;
  broadcaster = record { subscribers = (7, 1 ∷ []) ∷ []; queues = (1, []) ∷ [] };
  bets_won = 0;
  bets_lost = 0;
}

abbrev deposit_after : App
deposit_after = (deposit_route world settings 7 "key" (1 ∷ []) (pos 500) app).1

abbrev deposit_result : Dict
deposit_result = or_empty (deposit_route world settings 7 "key" (1 ∷ []) (pos 500) app).0

deposit_run :
    deposit_route world settings 7 "key" (1 ∷ []) (pos 500) app ≡ (ok deposit_result, deposit_after)
unfolding deposit_route is_key_length is_deposit_request notify run_idempotent perform_or_resolve
    perform in_transaction work_and_mark try_reserve reserve create_pending insert_key
    mark_completed update_id deposit_work view_to_dict dict deposit ◌>>=◌ require_wallet
    get_by_user_id fits_bigint ◌+ℤ◌ emit enqueue_event new_envelope build event_topic_suffix
    is_invalid append insert_entry credit write_balance insert_row set_id
deposit_run = refl

deposit_route-once_example :
    (view : BalanceView) × (deposit_result ≡ view_to_dict view)
    × Deposited (pos 500) app.db deposit_after.db view
    × (deposit_route world settings 7 "key" (1 ∷ []) (pos 500) deposit_after ≡ (
      ok deposit_result,
      reported_again (notify 7 "balance.updated") deposit_result deposit_after,
    ))
deposit_route-once_example =
    deposit_route-once world settings 7 "key" (pos 500) (1 ∷ []) app deposit_after deposit_result
      refl deposit_run

abbrev round_after : App
round_after = (create_round world settings 7 "key" (1 ∷ []) requests app).1

abbrev round_result : Dict
round_result = or_empty (create_round world settings 7 "key" (1 ∷ []) requests app).0

round_run :
    create_round world settings 7 "key" (1 ∷ []) requests app ≡ (ok round_result, round_after)
unfolding create_round is_key_length is_round_request notify run_idempotent perform_or_resolve
    perform in_transaction work_and_mark try_reserve reserve create_pending insert_key
    mark_completed update_id round_work place_bet ◌>>=◌ validate_bets validate_bet covered_numbers
    require_wallet get_by_user_id play debit total_stake sum_ℤ ◌+ℤ◌ fits_bigint ◌-ℤ◌
    get_active_by_user_id consume_nonce spin derive_outcome fixed_selections index_selections
    numbers_selections resolve_bet resolve_bets total_payout attempt decimal message uniform_below
    less times zero_money bet_specs column_by_index columns corners dozen_by_index lines number_at
    position splits streets emit enqueue_event new_envelope build event_topic_suffix is_invalid
    neg_ℤ ◌*ℤ◌ append insert_entry create_settled_round insert_bet insert_bets insert_round credit
    write_balance insert_row set_id append_payout credit_payout emit_bets emit_payout
    enqueue_round_events zip_strict count_round any_won any_won_in get_key result_to_dict
    bet_to_dict selection_dict dict items
round_run = refl

create_round-replay_example :
    create_round world settings 7 "key" (1 ∷ []) requests round_after
    ≡ (ok round_result, reported_again (report_round 7) round_result round_after)
create_round-replay_example =
    create_round-replay world settings 7 "key" (1 ∷ []) app round_after round_after round_result
      requests round_run refl

create_round-IsBalanced_example : IsBalanced (money round_after.db)
create_round-IsBalanced_example =
    create_round-IsBalanced world settings 7 "key" (1 ∷ []) app db-IsBalanced requests limit_nonneg

deposit_route-IsBalanced_example : IsBalanced (money deposit_after.db)
deposit_route-IsBalanced_example =
    deposit_route-IsBalanced world settings 7 "key" (1 ∷ []) app db-IsBalanced (pos 500)

-- a Redis with one counter
abbrev one_counter : Redis ℕ
one_counter = record { incr = λ k n. (suc n, suc n); expire = λ k ttl n. n }

abbrev limiter : WsConnectRateLimiter ℕ
limiter = record { redis = one_counter; max_attempts = 3; window = 60000000 }

abbrev one_counter-RedisLaws : RedisLaws one_counter
one_counter-RedisLaws = record {
  value = λ n k. n;
  incr_result = λ k n. refl;
  incr_value = λ k n. refl;
  expire_value = λ k ttl n. refl;
}

abbrev attempt_times : List ℕ
attempt_times = 1 ∷ 2 ∷ 3 ∷ 4 ∷ 5 ∷ []

count_allowed-least_example :
    count_allowed limiter "10.0.0.1" attempt_times 0 ≡ least (length attempt_times) (3 - 0)
count_allowed-least_example =
    count_allowed-least limiter one_counter-RedisLaws "10.0.0.1" 0 attempt_times 0
      (refl, (refl, (refl, (refl, (refl, tt)))))

abbrev user : User
user = record {
  email = "a@b.c";
  password_hash = "secret";
  status = UserStatus.active;
  created_at = 0;
}

abbrev user_db : Db
user_db = record db { users = (7, user) ∷ [] }

authenticate_iff_example :
    (authenticate world settings (some "current") user_db ≡ (ok (some 7), user_db)) ↔ (
      (u : User) × IsAdmitted
        (decode_access_token world
          (world.now user_db.calls)
          "current"
          settings.jwt_secret
          settings.jwt_algorithm
          settings.jwt_previous_secrets)
        7
        u
        user_db
      × (get_current_user world settings (some (append_str "Bearer " "current")) user_db
          ≡ (ok (7, u), user_db)))
authenticate_iff_example = authenticate_iff world settings "current" 7 user_db refl

abbrev connection : Connection
connection = record {
  websocket = 9;
  client_ip = "10.0.0.1";
  token = some "current";
  time = 1;
  queue = 4;
  accept = ok tt;
  serve = λ b. (ok tt, publish 7 empty b);
}

abbrev endpoint : Endpoint ℕ
endpoint = record {
  db = user_db;
  registry = record { max_connections = 2; connections = 8 ∷ []; active = pos 1; total = 1 };
  broadcaster = app.broadcaster;
  redis = 0;
  closes = [];
}

ws_endpoint-occupied_example :
    occupied (ws_endpoint connection world settings limiter endpoint).1.registry
    ≡ occupied endpoint.registry
ws_endpoint-occupied_example = ws_endpoint-occupied connection world settings limiter endpoint refl

-- texts of times and ids in unary
abbrev stroke : Char
stroke = "x"

unfoldable pub strokes : ℕ → String
strokes zero = ""
strokes (suc n) = cons_str stroke (strokes n)

unfoldable pub size : String → ℕ
size empty_str = 0
size (cons_str c s) = suc (size s)

pub size-strokes : (n : ℕ) → size (strokes n) ≡ n
unfolding size strokes
size-strokes zero = refl
size-strokes (suc n) = ap suc (size-strokes n)

strokes_bar : (n : ℕ) → has_bar (strokes n) ≡ false
unfolding has_bar strokes
strokes_bar zero = refl
strokes_bar (suc n) = strokes_bar n

abbrev pub unary_world : World
unary_world = record world { show_uuid = strokes; parse_uuid = λ s. some (size s) }

abbrev unary : Codec
unary = record {
  isoformat = strokes;
  fromisoformat = λ s. some (size s);
  b64encode = λ s. s;
  b64decode = λ s. some s;
}

unary-CodecLaws : CodecLaws unary_world unary
unary-CodecLaws = record {
  time_back = λ t i. some (size-strokes t i);
  time_bar = strokes_bar;
  uuid_back = λ id i. some (size-strokes id i);
  uuid_bar = strokes_bar;
  base64_back = λ s. refl;
  base64_given = λ s h. h;
}

decode_cursor-encode_cursor_example :
    decode_cursor unary_world unary (encode_cursor unary_world unary (3, 2)) ≡ ok (3, 2)
decode_cursor-encode_cursor_example =
    decode_cursor-encode_cursor unary_world unary unary-CodecLaws (3, 2)

-- three entries, two of them of one time, read in pages of two
abbrev three : Db
three = record db {
  ledger =
      record entry { id = 1; created_at = 5 }
      ∷ record entry { id = 2; created_at = 6 }
      ∷ record entry { id = 3; created_at = 5 }
      ∷ [];
}

three_wallet : get_by_user_id 7 three ≡ (ok (some (5, wallet)), three)
unfolding get_by_user_id
three_wallet = refl

list_transactions_complete_example :
    read_all
      (fetch_transactions unary_world unary 7 1 three)
      (suc (length (entries_of 5 three)))
      none
    ≡ ok (map transaction_item (order_desc entry_place (entries_of 5 three)))
list_transactions_complete_example =
    list_transactions_complete unary_world unary 7 1 three (5, wallet) three_wallet unary-CodecLaws
      (ground arith) ((refl, (refl, tt)), ((refl, tt), (tt, tt)))
