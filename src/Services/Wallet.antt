-- ===== src/Services/Wallet.antt =====
-- app/services/wallet.py: balance and simulated deposit.
pub mod Balanced
pub mod Deposit
pub mod Returns
use theclub_api.Prelude.{ℕ, String, Option, none, some, List, [], ◌∷◌, ℤ}
use theclub_api.Result.{ok, data_integrity, or_raise}
use theclub_api.Exec.{Exec, lift, pure, ◌>>=◌, ◌>>◌}
use theclub_api.Json.{Dict, number, text, dict}
use theclub_api.Domain.Money.{euros}
use theclub_api.Config.{Settings}
use theclub_api.Events.Schemas.{WalletTransactionKind, wallet_transaction}
use theclub_api.Events.Outbox.{emit}
use theclub_api.Db.{Db, Wallet, LedgerEntry}
use theclub_api.World.{World}
use theclub_api.Repositories.Wallets.{get_by_user_id, credit}
use theclub_api.Repositories.Ledger.{append}
use theclub_api.Repositories.Listing.{Place, list_by_wallet}

pub record BalanceView : Type 0 where
  pub balance_minor : ℤ
  pub currency : String

-- `BalanceView.to_dict`
unfoldable pub view_to_dict : BalanceView → Dict
view_to_dict v =
    dict (("balance_minor", number v.balance_minor) ∷ ("currency", text v.currency) ∷ [])

abbrev pub max_deposit_minor : ℕ
max_deposit_minor = 10000000

-- the wallet of an authenticated user, which must be there
unfoldable pub require_wallet : ℕ → Exec Db (ℕ × Wallet)
require_wallet user_id = do found ← get_by_user_id user_id; lift (or_raise found data_integrity)

-- `get_balance`
unfoldable pub get_balance : ℕ → Exec Db BalanceView
get_balance user_id = do
  wallet ← require_wallet user_id
  pure (record { balance_minor = wallet.1.balance_minor; currency = wallet.1.currency })

-- `list_transactions`
unfoldable pub list_transactions : ℕ → Option Place → ℕ → Exec Db (List LedgerEntry)
list_transactions user_id cursor limit = do
  wallet ← require_wallet user_id
  list_by_wallet wallet.0 cursor limit

-- `deposit`
unfoldable pub deposit : World → Settings → ℕ → String → ℤ → Exec Db BalanceView
deposit w settings user_id idempotency_key amount_minor = do
  wallet ← require_wallet user_id
  balance_after ← credit wallet.0 (euros amount_minor)
  entry ←
      append w wallet.0 (euros amount_minor) balance_after WalletTransactionKind.deposit none none
  emit w settings.kafka_topic_prefix
      (wallet_transaction (record {
        transaction_id = entry.id;
        user_id = user_id;
        wallet_id = wallet.0;
        kind = WalletTransactionKind.deposit;
        amount_minor = amount_minor;
        balance_after_minor = balance_after;
        currency = wallet.1.currency;
        ref_type = none;
        ref_id = none;
      }))
      (some idempotency_key) user_id
  pure (record { balance_minor = balance_after; currency = wallet.1.currency })
