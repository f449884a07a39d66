-- ===== src/Services/Wallet/Balanced.antt =====
-- Balances against ledger entries (app/models/ledger.py calls a balance a cache of their sum): what
-- each statement does to the equation between them.
use theclub_api.Prelude.{
  ℕ, ◌≡◌, refl, sym, ap, ◌∙◌, some, ◌==◌, if◌then◌else◌, List, ℤ, pos, ◌+ℤ◌, ◌-ℤ◌, int_laws,
  Bool-cases, inl, inr, ==_iff,
}
use theclub_api.Rows.{Table, find_id, find_id-set_id}
use theclub_api.Db.{Db, Wallet, LedgerEntry}
use theclub_api.Repositories.Wallets.{Rewritten}
use theclub_api.Repositories.Ledger.{Appended, ledger_sum, ledger_sum-append}
use theclub_api.Services.Untouched.{Ignores, IgnoresSeeds}

-- The part of the database that holds money.
abbrev pub money : Db → Table Wallet × List LedgerEntry
money db = (db.wallets, db.ledger)

-- Every wallet's balance is the sum of its entries, but for one, which is `x` above it.
abbrev pub IsAhead : ℕ → ℤ → Table Wallet × List LedgerEntry → Type 0
IsAhead wallet_id x (wallets, ledger) =
    (k : ℕ) (wal : Wallet)
    → find_id k wallets ≡ some wal
    → wal.balance_minor ≡ ledger_sum k ledger +ℤ (if wallet_id == k then x else pos 0)

-- Every wallet's balance is the sum of its entries.
abbrev pub IsBalanced : Table Wallet × List LedgerEntry → Type 0
IsBalanced (wallets, ledger) =
    (k : ℕ) (wal : Wallet) → find_id k wallets ≡ some wal → wal.balance_minor ≡ ledger_sum k ledger

pub IsBalanced-IsAhead :
    (wallet_id : ℕ) (m : Table Wallet × List LedgerEntry)
    → IsBalanced m
    → IsAhead wallet_id (pos 0) m
IsBalanced-IsAhead wallet_id m h k wal found = grind (int_laws, h k wal found)

pub IsAhead-IsBalanced :
    (wallet_id : ℕ) (m : Table Wallet × List LedgerEntry)
    → IsAhead wallet_id (pos 0) m
    → IsBalanced m
IsAhead-IsBalanced wallet_id m h k wal found = grind (int_laws, h k wal found)

-- Writing one balance moves the wallet ahead by the difference.
pub Rewritten-IsAhead :
    (wallet_id : ℕ) (wal : Wallet) (b x d : ℤ) (db after : Db)
    → find_id wallet_id db.wallets ≡ some wal
    → b ≡ wal.balance_minor +ℤ d
    → Rewritten wallet_id wal b db after
    → IsAhead wallet_id x (money db)
    → IsAhead wallet_id (x +ℤ d) (money after)
Rewritten-IsAhead wallet_id wal b x d db after found e r h k found_wal p =
    let w' : Wallet = record wal { balance_minor = b } in
    let row : find_id k after.wallets ≡ (if wallet_id == k then some w' else find_id k db.wallets) =
      ap (λ (d : Db). find_id k d.wallets) r ∙ find_id-set_id k wallet_id w' db.wallets in
    let entries : after.ledger ≡ db.ledger = ap (λ (d : Db). d.ledger) r in
    elim (Bool-cases (wallet_id == k)) [
      | inl here ↦
          let same : wallet_id ≡ k = (==_iff wallet_id k).0 here in
          let new : some found_wal ≡ some w' = sym p ∙ row ∙ (rw here) in
          rw (entries, here) (grind (int_laws, h k wal (rw same at found), new))
      | inr other ↦
          let old : find_id k db.wallets ≡ some found_wal = sym (row ∙ (rw other)) ∙ p in
          rw (entries, other) (grind (int_laws, h k found_wal old))
    ]

-- An entry of the wallet moves it back by its amount.
pub Appended-IsAhead :
    (wallet_id : ℕ) (amount balance x : ℤ) (entry : LedgerEntry) (db after : Db)
    → Appended wallet_id amount balance entry db after
    → IsAhead wallet_id x (money db)
    → IsAhead wallet_id (x -ℤ amount) (money after)
Appended-IsAhead wallet_id amount balance x entry db after a h k wal p =
    let old : find_id k db.wallets ≡ some wal = ap (find_id k) (sym a.wallets) ∙ p in
    rw (a.ledger, ledger_sum-append k entry db.ledger, a.wallet, a.amount_minor)
      (elim (Bool-cases (wallet_id == k)) [
        | inl here ↦ rw here (grind (int_laws, h k wal old))
        | inr other ↦ rw other (grind (int_laws, h k wal old))
      ])

-- What moves no money leaves that part as it was.
pub money-Ignores : Ignores money
money-Ignores = record {
  of_calls = λ db n. refl;
  of_outbox = λ db t. refl;
  of_rounds = λ db t. refl;
  of_bets = λ db t. refl;
}

pub money-IgnoresSeeds : IgnoresSeeds money
money-IgnoresSeeds = record { of_seed_pairs = λ db t. refl }
