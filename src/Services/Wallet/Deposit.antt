-- ===== src/Services/Wallet/Deposit.antt =====
-- What a deposit does to the balances and to the ledger.
use theclub_api.Prelude.{
  ℕ, String, ◌≡◌, refl, sym, ap, ◌∙◌, none, some, [], ◌∷◌, ◌++◌, arith, ℤ, pos, ◌+ℤ◌, ◌-ℤ◌, ◌≤ℤ◌,
  int_laws,
}
use theclub_api.Result.{ok}
use theclub_api.Exec.{◌>>=◌, bind_returned, returned_eq}
use theclub_api.Exec.Frames.{framed}
use theclub_api.Rows.{find_id, set_id}
use theclub_api.Domain.Money.{euros}
use theclub_api.Db.{Db, Wallet, LedgerEntry}
use theclub_api.Config.{Settings}
use theclub_api.World.{World}
use theclub_api.Repositories.Wallets.{get_by_user_id, credit, credit-eq-ok}
use theclub_api.Repositories.Ledger.{Appended, append-eq-ok}
use theclub_api.Services.Wallet.{BalanceView, require_wallet, deposit}
use theclub_api.Services.Wallet.Balanced.{
  money, IsBalanced, IsBalanced-IsAhead, IsAhead-IsBalanced, Rewritten-IsAhead, Appended-IsAhead,
  money-Ignores,
}
use theclub_api.Services.Untouched.{emit-Frames}

-- Looking up the wallet changes nothing.
pub require_wallet-eq-ok :
    (user_id : ℕ) (db after : Db) (row : ℕ × Wallet)
    → require_wallet user_id db ≡ (ok row, after)
    → after ≡ db
unfolding require_wallet get_by_user_id ◌>>=◌
require_wallet-eq-ok user_id db after row h = ground arith

-- What a deposit that returned has done, in terms of the wallet that it found.
pub record Deposited (amount : ℤ) (db after : Db) (view : BalanceView) : Type 0 where
  pub wallet_id : ℕ
  pub wal : Wallet
  pub entry : LedgerEntry
  pub found : find_id wallet_id db.wallets ≡ some wal
  pub balance : view.balance_minor ≡ wal.balance_minor +ℤ amount
  pub nonneg : pos 0 ≤ℤ view.balance_minor
  pub wallets :
      after.wallets
      ≡ set_id wallet_id (record wal { balance_minor = view.balance_minor }) db.wallets
  pub of_wallet : entry.wallet_id ≡ wallet_id
  pub of_amount : entry.amount_minor ≡ amount
  pub of_balance : entry.balance_after_minor ≡ view.balance_minor
  pub ledger : after.ledger ≡ db.ledger ++ entry ∷ []

deposited :
    (wallet_id : ℕ) (amount b : ℤ) (entry : LedgerEntry) (db db2 db3 after : Db)
    (view : BalanceView)
    → credit wallet_id (euros amount) db ≡ (ok b, db2)
    → Appended wallet_id amount b entry db2 db3
    → money after ≡ money db3
    → view.balance_minor ≡ b
    → Deposited amount db after view
deposited wallet_id amount b entry db db2 db3 after view e a m v =
    let (wal, found, sum, nonneg, r) = credit-eq-ok wallet_id (euros amount) db db2 b e in
    record {
      wallet_id = wallet_id;
      wal = wal;
      entry = entry;
      found = found;
      balance = v ∙ sum;
      nonneg = rw v nonneg;
      wallets = ap (λ x. x.0) m ∙ a.wallets ∙ ap (λ (d : Db). d.wallets) r ∙ (rw v);
      of_wallet = a.wallet;
      of_amount = a.amount_minor;
      of_balance = a.balance ∙ sym v;
      ledger = ap (λ x. x.1) m ∙ a.ledger ∙ ap (λ (d : Db). d.ledger ++ entry ∷ []) r;
    }

-- A deposit that returned found a wallet, raised its balance by the amount, added one ledger entry
-- of that amount with the balance that it returned, and wrote no other balance and no other entry.
pub deposit-Deposited :
    (w : World) (settings : Settings) (user_id : ℕ) (key : String) (amount : ℤ) (db after : Db)
    (view : BalanceView)
    → deposit w settings user_id key amount db ≡ (ok view, after)
    → Deposited amount db after view
unfolding deposit
deposit-Deposited w settings user_id key amount db after view h =
    bind_returned _ _ _ _ _ h λ row db1 e1 h1. bind_returned _ _ _ _ _ h1 λ b db2 e2 h2.
      bind_returned _ _ _ _ _ h2 λ entry db3 e3 h3. bind_returned _ _ _ _ _ h3 λ _ db4 e4 h4.
        deposited row.0 amount b entry db db2 db3 after view
          (ap (credit row.0 (euros amount)) (sym (require_wallet-eq-ok user_id db db1 row e1)) ∙ e2)
          (append-eq-ok w row.0 (euros amount) b _ none none entry db2 db3 e3)
          (ap money (sym (returned_eq h4).1)
            ∙ framed (emit-Frames money-Ignores w _ _ _ user_id) e4)
          (ap (λ (v : BalanceView). v.balance_minor) (sym (returned_eq h4).0))

-- A deposit that returned keeps the balance of every wallet equal to the sum of its ledger entries.
pub deposit-IsBalanced :
    (w : World) (settings : Settings) (user_id : ℕ) (key : String) (amount : ℤ) (db after : Db)
    (view : BalanceView)
    → deposit w settings user_id key amount db ≡ (ok view, after)
    → IsBalanced (money db)
    → IsBalanced (money after)
deposit-IsBalanced w settings user_id key amount db after view h balanced =
    let d = deposit-Deposited w settings user_id key amount db after view h in
    let mid : Db = record db { wallets = after.wallets } in
    let ahead =
      Rewritten-IsAhead d.wallet_id d.wal view.balance_minor (pos 0) amount db mid d.found d.balance
        (λ i. record db { wallets = d.wallets i })
        (IsBalanced-IsAhead d.wallet_id (money db) balanced) in
    let entry : Appended d.wallet_id amount view.balance_minor d.entry mid after = record {
      wallet = d.of_wallet;
      amount_minor = d.of_amount;
      balance = d.of_balance;
      wallets = refl;
      ledger = d.ledger;
    } in
    let back : pos 0 +ℤ amount -ℤ amount ≡ pos 0 = omega int_laws in
    IsAhead-IsBalanced d.wallet_id (money after) (
      rw back at
        (Appended-IsAhead d.wallet_id amount view.balance_minor _ d.entry mid after entry ahead))
