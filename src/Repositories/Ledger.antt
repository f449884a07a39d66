-- ===== src/Repositories/Ledger.antt =====
-- app/repositories/ledger.py, `append`, and the CHECKs of app/models/ledger.py.
use theclub_api.Prelude.{
  ℕ, ◌≡◌, not, ◌||◌, Option, List, [], ◌∷◌, ◌++◌, arith, ◌==◌, any, if◌then◌else◌, ℤ, pos, ◌+ℤ◌,
  ltb_ℤ, int_laws,
}
use theclub_api.Result.{ok, err, integrity_error, data_error}
use theclub_api.Exec.{Exec, ◌>>=◌}
use theclub_api.Domain.Money.{Money}
use theclub_api.Events.Schemas.{WalletTransactionKind, RefType}
use theclub_api.Db.{Db, LedgerEntry, fits_bigint}
use theclub_api.World.{World, new_uuid}

-- `INSERT INTO ledger_entries`: the BIGINTs, the CHECK and the primary key
unfoldable pub insert_entry : LedgerEntry → Exec Db LedgerEntry
insert_entry entry db =
    if not (fits_bigint entry.amount_minor) || not (fits_bigint entry.balance_after_minor)
    then (err data_error, db)
    else if ltb_ℤ entry.balance_after_minor (pos 0) || any (λ e. e.id == entry.id) db.ledger
    then (err integrity_error, db)
    else (ok entry, record db { ledger = db.ledger ++ entry ∷ [] })

-- `LedgerRepository.append`
unfoldable pub append :
    World → ℕ → Money → ℤ → WalletTransactionKind → Option RefType → Option ℕ → Exec Db LedgerEntry
unfolding insert_entry
append w wallet_id amount balance_after_minor kind ref_type ref_id = do
  id ← new_uuid w
  λ db.
      insert_entry
        (record {
          id = id;
          wallet_id = wallet_id;
          amount_minor = amount.minor;
          balance_after_minor = balance_after_minor;
          kind = kind;
          ref_type = ref_type;
          ref_id = ref_id;
          created_at = db.started;
        })
        db

-- The sum of the entries of one wallet.
unfoldable pub ledger_sum : ℕ → List LedgerEntry → ℤ
ledger_sum wallet_id [] = pos 0
ledger_sum wallet_id (e ∷ entries) =
    (if e.wallet_id == wallet_id then e.amount_minor else pos 0) +ℤ ledger_sum wallet_id entries

pub ledger_sum-append :
    (wallet_id : ℕ) (e : LedgerEntry) (entries : List LedgerEntry)
    → ledger_sum wallet_id (entries ++ e ∷ [])
      ≡ ledger_sum wallet_id entries +ℤ (if e.wallet_id == wallet_id then e.amount_minor else pos 0)
unfolding ledger_sum
ledger_sum-append wallet_id e [] = omega int_laws
ledger_sum-append wallet_id e (x ∷ entries) =
    rw (ledger_sum-append wallet_id e entries) (omega int_laws)

-- What an append that returned has written: one more entry, with these values.
pub record Appended (wallet_id : ℕ) (amount : ℤ) (balance_after : ℤ) (entry : LedgerEntry)
    (db after : Db) : Type 0 where
  pub wallet : entry.wallet_id ≡ wallet_id
  pub amount_minor : entry.amount_minor ≡ amount
  pub balance : entry.balance_after_minor ≡ balance_after
  pub wallets : after.wallets ≡ db.wallets
  pub ledger : after.ledger ≡ db.ledger ++ entry ∷ []

pub append-eq-ok :
    (w : World) (wallet_id : ℕ) (amount : Money) (balance_after : ℤ) (kind : WalletTransactionKind)
    (t : Option RefType) (i : Option ℕ) (entry : LedgerEntry) (db after : Db)
    → append w wallet_id amount balance_after kind t i db ≡ (ok entry, after)
    → Appended wallet_id amount.minor balance_after entry db after
unfolding append ◌>>=◌
append-eq-ok w wallet_id amount balance_after kind t i entry db after h = ground arith
