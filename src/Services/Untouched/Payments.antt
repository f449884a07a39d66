-- ===== src/Services/Untouched/Payments.antt =====
-- The statements that move money write the wallets and the ledger.
use theclub_api.Prelude.{
  arith, ℕ, String, ◌≡◌, refl, Bool-cases, inl, inr, Option, none, some, [], ◌∷◌, ◌++◌, ℤ, ◌-ℤ◌,
  leb_ℤ,
}
use theclub_api.Exec.Frames.{Frames, Frames-bind, frames_rules}
use theclub_api.Rows.{find_id, set_id}
use theclub_api.Domain.Money.{Money}
use theclub_api.Db.{Db, Wallet, LedgerEntry}
use theclub_api.World.{World}
use theclub_api.Config.{Settings}
use theclub_api.Events.Schemas.{WalletTransactionKind, RefType}
use theclub_api.Repositories.Wallets.{write_balance, credit_row, credit, debit_row, debit}
use theclub_api.Repositories.Ledger.{insert_entry, append}
use theclub_api.Services.Wallet.{deposit}
use theclub_api.Services.Untouched.{
  Ignores, IgnoresMoney, new_uuid-Frames, emit-Frames, require_wallet-Frames,
}

module _ {X : Type 0} {part : Db → X} (money : IgnoresMoney part) where
  write_balance-part :
      (id : ℕ) (wal : Wallet) (b : ℤ) (db : Db) → part (write_balance id wal b db).1 ≡ part db
  unfolding write_balance
  write_balance-part id wal b db =
      let wallets = set_id id (record wal { balance_minor = b }) db.wallets in
      ground (arith, money.of_wallets db wallets)

  credit_row-part :
      (id : ℕ) (amount : Money) (row : Option Wallet) (db : Db)
      → part (credit_row id amount row db).1 ≡ part db
  credit_row-part id amount none db = refl
  credit_row-part id amount (some wal) db = write_balance-part id wal _ db

  pub credit-Frames : (id : ℕ) (amount : Money) → Frames part (credit id amount)
  unfolding credit
  credit-Frames id amount = record {
    at = λ db. credit_row-part id amount (find_id id db.wallets) db;
  }

  debit_row-part :
      (id : ℕ) (amount : Money) (row : Option Wallet) (db : Db)
      → part (debit_row id amount row db).1 ≡ part db
  debit_row-part id amount none db = refl
  debit_row-part id amount (some wal) db =
      elim (Bool-cases (leb_ℤ amount.minor wal.balance_minor)) [
        | inl enough ↦ rw enough (write_balance-part id wal (wal.balance_minor -ℤ amount.minor) db)
        | inr short ↦ rw short refl
      ]

  pub debit-Frames : (id : ℕ) (amount : Money) → Frames part (debit id amount)
  unfolding debit
  debit-Frames id amount = record { at = λ db. debit_row-part id amount (find_id id db.wallets) db }

  insert_entry-part : (e : LedgerEntry) (db : Db) → part (insert_entry e db).1 ≡ part db
  unfolding insert_entry
  insert_entry-part e db = ground (arith, money.of_ledger db (db.ledger ++ e ∷ []))

module _ {X : Type 0} {part : Db → X} (ignores : Ignores part) (money : IgnoresMoney part)
    (w : World) where
  pub append-Frames :
      (id : ℕ) (amount : Money) (b : ℤ) (kind : WalletTransactionKind) (t : Option RefType)
      (i : Option ℕ)
      → Frames part (append w id amount b kind t i)
  unfolding append
  append-Frames id amount b kind t i =
      Frames-bind _ _ (new_uuid-Frames ignores w)
        λ k. record { at = λ db. insert_entry-part money _ db }

  pub deposit-Frames :
      (settings : Settings) (user_id : ℕ) (key : String) (amount : ℤ)
      → Frames part (deposit w settings user_id key amount)
  unfolding deposit
  deposit-Frames settings user_id key amount = search (
    frames_rules,
    require_wallet-Frames,
    credit-Frames money,
    append-Frames,
    emit-Frames ignores w,
  )
