-- ===== src/Repositories/Wallets.antt =====
-- app/repositories/wallets.py, and the CHECK and the type of `balance_minor` in app/models/wallet.py.
use theclub_api.Prelude.{
  ℕ, ◌≡◌, not, Option, none, some, arith, ◌==◌, if◌then◌else◌, ℤ, pos, ◌+ℤ◌, ◌-ℤ◌, ◌≤ℤ◌, leb_ℤ,
  ltb_ℤ, inl, inr, Option-cases,
}
use theclub_api.Result.{ok, err, insufficient_funds, integrity_error, data_error, no_result}
use theclub_api.Exec.{Exec}
use theclub_api.Domain.Money.{Money}
use theclub_api.Rows.{find_id, set_id, select, scalar_one_or_none}
use theclub_api.Db.{Db, Wallet, fits_bigint}

-- `WalletRepository.get_by_user_id`
unfoldable pub get_by_user_id : ℕ → Exec Db (Option (ℕ × Wallet))
get_by_user_id user_id db =
    (scalar_one_or_none (select (λ wal. wal.user_id == user_id) db.wallets), db)

-- `SET balance_minor = …`: the BIGINT and the CHECK may refuse the value
unfoldable pub write_balance : ℕ → Wallet → ℤ → Exec Db ℤ
write_balance wallet_id wal balance db =
    if not (fits_bigint balance)
    then (err data_error, db)
    else if ltb_ℤ balance (pos 0)
    then (err integrity_error, db)
    else (
      ok balance,
      record db { wallets = set_id wallet_id (record wal { balance_minor = balance }) db.wallets },
    )

abbrev pub debit_row : ℕ → Money → Option Wallet → Exec Db ℤ
debit_row wallet_id amount none db = (err insufficient_funds, db)
debit_row wallet_id amount (some wal) db =
    if leb_ℤ amount.minor wal.balance_minor
    then write_balance wallet_id wal (wal.balance_minor -ℤ amount.minor) db
    else (err insufficient_funds, db)

-- `WalletRepository.debit`: no row updated is an error
unfoldable pub debit : ℕ → Money → Exec Db ℤ
unfolding write_balance
debit wallet_id amount db = debit_row wallet_id amount (find_id wallet_id db.wallets) db

abbrev pub credit_row : ℕ → Money → Option Wallet → Exec Db ℤ
credit_row wallet_id amount none db = (err no_result, db)
credit_row wallet_id amount (some wal) db =
    write_balance wallet_id wal (wal.balance_minor +ℤ amount.minor) db

-- `WalletRepository.credit`
unfoldable pub credit : ℕ → Money → Exec Db ℤ
unfolding write_balance
credit wallet_id amount db = credit_row wallet_id amount (find_id wallet_id db.wallets) db

-- The one row that a write of a balance changes.
abbrev pub Rewritten : ℕ → Wallet → ℤ → Db → Db → Type 0
Rewritten wallet_id wal balance db after =
    after
    ≡ record db { wallets = set_id wallet_id (record wal { balance_minor = balance }) db.wallets }

module _ (wallet_id : ℕ) (amount : Money) (db after : Db) (b : ℤ) where
  -- A debit that returns found the wallet with enough in it, took exactly the amount from it, left
  -- nothing below zero and returned the new balance. No other column or table is written.
  pub debit-eq-ok :
      debit wallet_id amount db ≡ (ok b, after)
      → (wal : Wallet) × (find_id wallet_id db.wallets ≡ some wal)
        × (amount.minor ≤ℤ wal.balance_minor)
        × (b ≡ wal.balance_minor -ℤ amount.minor)
        × (pos 0 ≤ℤ b)
        × Rewritten wallet_id wal b db after
  unfolding debit
  debit-eq-ok h = elim (Option-cases (find_id wallet_id db.wallets)) [
    | inl missing ↦ absurd (ground arith)
    | inr (wal, found) ↦ (wal, found, ground arith, ground arith, ground arith, ground arith)
  ]

  pub credit-eq-ok :
      credit wallet_id amount db ≡ (ok b, after)
      → (wal : Wallet) × (find_id wallet_id db.wallets ≡ some wal)
        × (b ≡ wal.balance_minor +ℤ amount.minor)
        × (pos 0 ≤ℤ b)
        × Rewritten wallet_id wal b db after
  unfolding credit
  credit-eq-ok h = elim (Option-cases (find_id wallet_id db.wallets)) [
    | inl missing ↦ absurd (ground arith)
    | inr (wal, found) ↦ (wal, found, ground arith, ground arith, ground arith)
  ]
