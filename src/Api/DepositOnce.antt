-- ===== src/Api/DepositOnce.antt =====
-- POST /wallet/deposit with a new Idempotency-Key credits the amount, and credits it once.
use theclub_api.Prelude.{ℕ, String, ◌≡◌, refl, sym, ap, ◌∙◌, true, false, ◌&&◌, ◌++◌, [], ◌∷◌, ℤ}
use theclub_api.Result.{ok}
use theclub_api.Exec.{bind_returned, returned_eq}
use theclub_api.Domain.Fairness.{Bytes}
use theclub_api.Rows.{find_id, set_id}
use theclub_api.Json.{Dict}
use theclub_api.Db.{Db}
use theclub_api.Config.{Settings}
use theclub_api.World.{World}
use theclub_api.Services.Wallet.{BalanceView, view_to_dict}
use theclub_api.Services.Wallet.Balanced.{money}
use theclub_api.Services.Wallet.Deposit.{Deposited, deposit-Deposited}
use theclub_api.Services.Idempotency.Reserved.{with_row, is_taken, is_taken-select}
use theclub_api.Services.Idempotency.Outcome.{worked, cached, run_idempotent-Answered}
use theclub_api.Services.Idempotency.AtMostOnce.{run_idempotent-replay}
use theclub_api.Api.App.{App, notify}
use theclub_api.World.Transactions.{begun}
use theclub_api.Api.Rounds.{is_key_length, request_of}
use theclub_api.Api.Deposits.{is_deposit_request, deposit_work, deposit_route}
use theclub_api.Api.Retry.{
  reported_again, notify-IsReport, guarded-eq-ok, guarded-replay, deposit_work-Frames,
}

-- A deposit is a fact about balances and ledger alone.
Deposited-money :
    (amount : ℤ) (before done db after : Db) (view : BalanceView)
    → money before ≡ money db
    → money after ≡ money done
    → Deposited amount before done view
    → Deposited amount db after view
Deposited-money amount before done db after view same left d = record {
  wallet_id = d.wallet_id;
  wal = d.wal;
  entry = d.entry;
  found = ap (λ m. find_id d.wallet_id m.0) (sym same) ∙ d.found;
  balance = d.balance;
  nonneg = d.nonneg;
  wallets =
      ap (λ m. m.0) left
      ∙ d.wallets
      ∙ ap (λ m. set_id d.wallet_id (record d.wal { balance_minor = view.balance_minor }) m.0) same;
  of_wallet = d.of_wallet;
  of_amount = d.of_amount;
  of_balance = d.of_balance;
  ledger = ap (λ m. m.1) left ∙ d.ledger ∙ ap (λ m. m.1 ++ d.entry ∷ []) same;
}

module _ (w : World) (settings : Settings) (user_id : ℕ) (key : String) (amount : ℤ) where
  deposit_work-Deposited :
      (before done : Db) (result : Dict)
      → deposit_work w settings user_id key amount before ≡ (ok result, done)
      → (view : BalanceView) × (result ≡ view_to_dict view) × Deposited amount before done view
  unfolding deposit_work
  deposit_work-Deposited before done result h =
      bind_returned _ _ before done result h λ view mid e k.
        let (same, left) = returned_eq k in
        (
          view,
          sym same,
          Deposited-money amount before mid before done view refl (ap money (sym left))
              (deposit-Deposited w settings user_id key amount before mid view e),
        )

  module _ (raw_body : Bytes) (app after : App) (result : Dict) where
    -- A deposit with a key that the user had not used returned the new balance, with the amount
    -- credited to the balance of one wallet and in one new ledger entry. Sent again at once, it
    -- returns the same and changes no table, so the amount is credited once.
    pub deposit_route-once :
        is_taken (request_of w settings user_id key raw_body) app.db ≡ false
        → deposit_route w settings user_id key raw_body amount app ≡ (ok result, after)
        → (view : BalanceView) × (result ≡ view_to_dict view)
          × Deposited amount app.db after.db view
          × (deposit_route w settings user_id key raw_body amount after
              ≡ (ok result, reported_again (notify user_id "balance.updated") result after))
    unfolding deposit_route
    deposit_route-once free h =
        let request = request_of w settings user_id key raw_body in
        let work = deposit_work w settings user_id key amount in
        let keeps = deposit_work-Frames w settings user_id key amount in
        let valid = is_key_length key && is_deposit_request amount in
        let report = notify user_id "balance.updated" in
        let reports = notify-IsReport user_id "balance.updated" in
        let (good, ran, told) =
          guarded-eq-ok w request work report reports valid app after result h in
        elim (run_idempotent-Answered w request work keeps app.db after.db result ran) [
          | worked base done same _ _ e left c ↦
              let before = begun w (with_row w request base) in
              let (view, shown, credited) = deposit_work-Deposited before done result e in
              (
                view,
                shown,
                Deposited-money amount before done app.db after.db view (ap money same)
                    (ap money left) credited,
                rw good (
                    guarded-replay w request work report reports after result
                      (run_idempotent-replay w request work keeps app.db after.db result ran
                        after.db refl work)
                      told),
              )
          | cached _ c ↦
              let bad : true ≡ false =
                sym (is_taken-select request app.db (c.stored.id, c.stored.row) c.stored.only)
                ∙ free in
              absurd (cc bad)
        ]
