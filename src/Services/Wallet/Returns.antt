-- ===== src/Services/Wallet/Returns.antt =====
-- When a deposit returns.
use Prim.Native.String.{◌++◌ as append_str}
use theclub_api.Prelude.{
  any, suc, Option, ◌++◌, ℕ, ◌≤◌, String, ◌≡◌, refl, ap, ◌∙◌, true, false, none, some, [], ◌∷◌,
  ◌==◌, arith, ℤ, pos, ◌+ℤ◌, ltb_ℤ,
}
use theclub_api.Result.{ok, data_integrity, or_raise-eq-ok}
use theclub_api.Exec.{Exec, ◌>>=◌, bind_step, bind_returned, lift_returned}
use theclub_api.Rows.{
  scalar_one_or_none-eq-some, Table, set_id, IsKeyed, find_id, find_id-select, insert_row-fresh,
}
use theclub_api.Domain.Money.{Money, euros}
use theclub_api.Db.{Db, Wallet, LedgerEntry, fits_bigint}
use theclub_api.Config.{Settings}
use theclub_api.World.{World}
use theclub_api.Events.Schemas.{
  WalletTransactionKind, RefType, wallet_transaction, EventData, EventEnvelope, is_invalid, build,
  event_topic_suffix,
}
use theclub_api.Events.Outbox.{emit, new_envelope, enqueue_event, put_outbox, fresh_event}
use theclub_api.Repositories.Wallets.{get_by_user_id, credit, write_balance}
use theclub_api.Repositories.Ledger.{append, insert_entry}
use theclub_api.Services.Wallet.{BalanceView, require_wallet, deposit}
use theclub_api.Services.Wallet.Deposit.{Deposited, deposit-Deposited}

-- The ids that `uuid4` is still to give are not in use.
abbrev pub IsUnused {ℓ} : {V : Type ℓ} → World → ℕ → Table V → Type ℓ
IsUnused w calls t = (n : ℕ) → calls ≤ n → find_id (w.uuid4 n) t ≡ none

-- A statement that returns.
abbrev pub Returns : {A : Type 0} → Exec Db A → Db → A → Type 0
Returns {A} m db a = (after : Db) × (m db ≡ (ok a, after))

module _ (w : World) where
  -- An event that is valid is enqueued, and three calls are made.
  emit-Returns :
      (prefix : String) (d : EventData) (key : Option String) (user_id : ℕ) (db : Db)
      → is_invalid d ≡ false
      → IsUnused w db.calls db.outbox
      → Returns (emit w prefix d key user_id) db tt
  unfolding emit build new_envelope enqueue_event ◌>>=◌
  emit-Returns prefix d key user_id db valid unused =
      let id = w.uuid4 (suc (suc db.calls)) in
      let envelope : EventEnvelope = record {
        event_id = w.uuid4 db.calls;
        occurred_at = w.now (suc db.calls);
        idempotency_key = key;
        event_data = d;
      } in
      let topic = append_str prefix (append_str "." (event_topic_suffix d)) in
      let row = fresh_event topic envelope user_id db.started in
      let later : Db = record db { calls = suc (suc (suc db.calls)) } in
      (
        record later { outbox = db.outbox ++ (id, row) ∷ [] },
        rw valid (
            ap (λ r. put_outbox r later)
              (insert_row-fresh id row db.outbox (unused (suc (suc db.calls)) (omega arith)))),
      )

-- What a balance or an amount must be to be written: a BIGINT, and not negative.
abbrev pub IsWritable : ℤ → Type 0
IsWritable b = (fits_bigint b ≡ true) × (ltb_ℤ b (pos 0) ≡ false)

pub credit-Returns :
    (id : ℕ) (amount : Money) (wal : Wallet) (db : Db)
    → find_id id db.wallets ≡ some wal
    → IsWritable (wal.balance_minor +ℤ amount.minor)
    → credit id amount db ≡ (
      ok (wal.balance_minor +ℤ amount.minor),
      record db {
        wallets =
            set_id id (record wal { balance_minor = wal.balance_minor +ℤ amount.minor }) db.wallets;
      },
    )
unfolding credit write_balance
credit-Returns id amount wal db found (fits, nonneg) = rw (found, fits, nonneg) refl

pub append-Returns :
    (w : World) (id : ℕ) (amount : Money) (b : ℤ) (kind : WalletTransactionKind)
    (t : Option RefType) (i : Option ℕ) (db : Db)
    → fits_bigint amount.minor ≡ true
    → IsWritable b
    → any (λ e. e.id == w.uuid4 db.calls) db.ledger ≡ false
    → (entry : LedgerEntry) × (append w id amount b kind t i db
        ≡ (ok entry, record db { calls = suc db.calls; ledger = db.ledger ++ entry ∷ [] }))
unfolding append insert_entry ◌>>=◌
append-Returns w id amount b kind t i db fits (fits_b, nonneg) fresh =
    let entry : LedgerEntry = record {
      id = w.uuid4 db.calls;
      wallet_id = id;
      amount_minor = amount.minor;
      balance_after_minor = b;
      kind = kind;
      ref_type = t;
      ref_id = i;
      created_at = db.started;
    } in
    (entry, rw (fits, fits_b, nonneg, fresh) refl)

-- The wallet that is found for a user is the row of its id.
pub require_wallet-find_id :
    (user_id : ℕ) (db : Db) (wallet : ℕ × Wallet)
    → IsKeyed db.wallets
    → require_wallet user_id db ≡ (ok wallet, db)
    → find_id wallet.0 db.wallets ≡ some wallet.1
unfolding require_wallet get_by_user_id
require_wallet-find_id user_id db wallet keyed h = bind_returned _ _ _ _ _ h λ found db1 e1 h1.
    let here = or_raise-eq-ok found data_integrity wallet (lift_returned _ wallet db1 db h1).0 in
    find_id-select (λ wal. wal.user_id == user_id) wallet.0 wallet.1 db.wallets keyed
      (scalar_one_or_none-eq-some _ wallet (ap (λ x. x.0) e1 ∙ ap ok here))

module _ (w : World) (settings : Settings) (user_id : ℕ) (key : String) (amount : ℤ) (db : Db)
    (wallet : ℕ × Wallet) where
  -- Let no two wallets have one key, let the user's wallet be in euros, let its balance and the amount
  -- together be a BIGINT that is not negative, let the amount be a BIGINT, and let no id that `uuid4` is
  -- still to give be in use in the outbox or the ledger. Then a deposit returns, with that sum for a balance; it has
  -- found a wallet, raised its balance by the amount, added one ledger entry of that amount with the
  -- balance that it returned, and written no other balance and no other entry.
  pub deposit-Returns :
      IsKeyed db.wallets
      → require_wallet user_id db ≡ (ok wallet, db)
      → wallet.1.currency ≡ "EUR"
      → fits_bigint amount ≡ true
      → IsWritable (wallet.1.balance_minor +ℤ amount)
      → IsUnused w db.calls db.outbox
      → ((n : ℕ) → db.calls ≤ n → any (λ e. e.id == w.uuid4 n) db.ledger ≡ false)
      → let view : BalanceView = record {
        balance_minor = wallet.1.balance_minor +ℤ amount;
        currency = wallet.1.currency;
      } in
        (after : Db) × (deposit w settings user_id key amount db ≡ (ok view, after))
        × Deposited amount db after view
  unfolding deposit is_invalid
  deposit-Returns keyed found euro fits writable unused unused_entry =
      let row = require_wallet-find_id user_id db wallet keyed found in
      let total = wallet.1.balance_minor +ℤ amount in
      let paid : Db = record db {
        wallets = set_id wallet.0 (record wallet.1 { balance_minor = total }) db.wallets;
      } in
      let (entry, entered) =
        append-Returns w wallet.0 (euros amount) total WalletTransactionKind.deposit none none paid
          fits writable (unused_entry db.calls (omega arith)) in
      let report : EventData = wallet_transaction (record {
        transaction_id = entry.id;
        user_id = user_id;
        wallet_id = wallet.0;
        kind = WalletTransactionKind.deposit;
        amount_minor = amount;
        balance_after_minor = total;
        currency = wallet.1.currency;
        ref_type = none;
        ref_id = none;
      }) in
      let valid : is_invalid report ≡ false = rw (writable.1, euro) refl in
      let (after, emitted) =
        emit-Returns w settings.kafka_topic_prefix report (some key) user_id
          (record paid { calls = suc db.calls; ledger = db.ledger ++ entry ∷ [] }) valid
          (λ n above. unused n (omega (arith, above))) in
      let done =
        bind_step _ _ _ _ _ found
        ∙ bind_step _ _ _ _ _ (credit-Returns wallet.0 (euros amount) wallet.1 db row writable)
        ∙ bind_step _ _ _ _ _ entered
        ∙ bind_step _ _ _ _ _ emitted in
      (after, done, deposit-Deposited w settings user_id key amount db after _ done)
