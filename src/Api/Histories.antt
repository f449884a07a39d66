-- ===== src/Api/Histories.antt =====
-- app/api/v1/wallet.py, GET /wallet/transactions, and app/api/v1/roulette.py, GET /roulette/rounds.
pub mod Transactions
use theclub_api.Prelude.{
  ℕ, String, Bool, true, false, not, ◌&&◌, leb, Option, none, some, List, [], ◌∷◌, map, ℤ,
}
use theclub_api.Result
use theclub_api.Result.{Result, ok, err, data_integrity, request_invalid, or_raise, raise_if}
use theclub_api.Exec.{Exec, lift, pure, gets, ◌>>=◌, ◌>>◌}
use theclub_api.Domain.Table.{BetType}
use theclub_api.Domain.Bets.{Selection}
use theclub_api.Events.Schemas.{WalletTransactionKind, RefType}
use theclub_api.Rows.{Table}
use theclub_api.Db.{Db, LedgerEntry, Round, Bet, BetStatus}
use theclub_api.World.{World}
use theclub_api.Repositories.Listing.{entry_place, round_place, bets_of}
use theclub_api.Services.Wallet.{list_transactions}
use theclub_api.Services.Roulette.{SettledBetView}
use theclub_api.Services.Roulette.History.{list_rounds}
use theclub_api.Api.Pagination.{Codec, decode_optional, next_cursor}

pub record TransactionItem : Type 0 where
  pub id : ℕ
  pub amount_minor : ℤ
  pub balance_after_minor : ℤ
  pub kind : WalletTransactionKind
  pub ref_type : Option RefType
  pub ref_id : Option ℕ
  pub created_at : ℕ

-- `TransactionsPage` and `RoundHistoryPage`
pub record Page (A : Type 0) : Type 0 where
  pub items : List A
  pub next_cursor : Option String

pub record RoundHistoryItem : Type 0 where
  pub round_id : ℕ
  pub outcome : ℕ
  pub created_at : ℕ
  pub bets : List SettledBetView

-- `Query(default=20, ge=1, le=100)`
unfoldable pub check_limit : ℕ → Result (Unit {0})
check_limit limit = raise_if (not (leb 1 limit && leb limit 100)) request_invalid

abbrev pub transaction_item : LedgerEntry → TransactionItem
transaction_item e = record {
  id = e.id;
  amount_minor = e.amount_minor;
  balance_after_minor = e.balance_after_minor;
  kind = e.kind;
  ref_type = e.ref_type;
  ref_id = e.ref_id;
  created_at = e.created_at;
}

abbrev pub is_won : BetStatus → Bool
is_won BetStatus.pending = false
is_won BetStatus.won = true
is_won BetStatus.lost = false

abbrev pub bet_item : ℕ × Bet → SettledBetView
bet_item (_, b) = record {
  bet_type = b.bet_type;
  selection = b.selection;
  stake_minor = b.stake_minor;
  payout_minor = b.payout_minor;
  won = is_won b.status;
}

-- the loop of `list_rounds` over the rounds of the page
unfoldable pub history_items : Db → Table Round → Result (List RoundHistoryItem)
history_items db [] = ok []
history_items db ((id, r) ∷ rounds) =
    let rest = history_items db rounds in
    Result.◌>>=◌ (or_raise r.outcome data_integrity) λ outcome. Result.◌>>=◌ rest λ items. ok (
      record {
        round_id = id;
        outcome = outcome;
        created_at = r.created_at;
        bets = map bet_item (bets_of id db);
      }
      ∷ items)

module _ (w : World) (codec : Codec) (user_id : ℕ) where
  -- `list_transactions`, for an authenticated user
  unfoldable pub list_transactions_route : Option String → ℕ → Exec Db (Page TransactionItem)
  list_transactions_route cursor limit = do
    lift (check_limit limit)
    decoded_cursor ← lift (decode_optional w codec cursor)
    entries ← list_transactions user_id decoded_cursor limit
    pure (record {
      items = map transaction_item entries;
      next_cursor = next_cursor w codec entry_place limit entries;
    })

  -- `list_rounds`, for an authenticated user
  unfoldable pub list_rounds_route : Option String → ℕ → Exec Db (Page RoundHistoryItem)
  list_rounds_route cursor limit = do
    lift (check_limit limit)
    decoded_cursor ← lift (decode_optional w codec cursor)
    rounds ← list_rounds user_id decoded_cursor limit
    db ← gets (λ db. db)
    items ← lift (history_items db rounds)
    pure (record { items = items; next_cursor = next_cursor w codec round_place limit rounds })
