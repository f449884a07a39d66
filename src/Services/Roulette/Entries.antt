-- ===== src/Services/Roulette/Entries.antt =====
-- The ledger entries of a round that was played, against the balances.
use theclub_api.Prelude.{
  ℕ, ◌≡◌, refl, sym, ap, ◌∙◌, none, some, List, All, arith, ℤ, pos, neg_ℤ, ◌+ℤ◌, ◌<ℤ◌, int_laws,
  inl, inr, subst,
}
use theclub_api.Result.{ok}
use theclub_api.Rows.{Table}
use theclub_api.Domain.Money.{euros}
use theclub_api.Domain.Bets.{PlacedBet}
use theclub_api.Db.{Db, Wallet, LedgerEntry}
use theclub_api.Config.{Settings}
use theclub_api.World.{World}
use theclub_api.Repositories.Wallets.{debit-eq-ok, credit-eq-ok, credit}
use theclub_api.Services.Wallet.Balanced.{
  money, IsBalanced, IsAhead, IsBalanced-IsAhead, IsAhead-IsBalanced, Rewritten-IsAhead,
  Appended-IsAhead,
}
use theclub_api.Services.Roulette.{PlaceBetResult}
use theclub_api.Services.Roulette.Trace.{Played}
use theclub_api.Services.Roulette.Payment.{
  HasStake, credit_payout-cases, append_payout-some, append_payout-none,
}
use theclub_api.Services.Roulette.Settled.{debit-money, payout_nonneg}

same-IsAhead :
    (wallet_id : ℕ) {x y : ℤ} {m n : Table Wallet × List LedgerEntry}
    → x ≡ y
    → n ≡ m
    → IsAhead wallet_id x m
    → IsAhead wallet_id y n
same-IsAhead wallet_id {x} {y} {m} {n} e e' h =
    subst (λ z. IsAhead wallet_id z n) e (subst (IsAhead wallet_id x) (sym e') h)

module _ {w : World} {settings : Settings} {user_id : ℕ} {bets : List PlacedBet}
    {wallet : ℕ × Wallet} {db after : Db} {result : PlaceBetResult} where
  -- after the debit the wallet is behind its entries by the stake
  after_debit :
      (p : Played w settings user_id bets wallet db after result)
      → IsBalanced (money db)
      → IsAhead wallet.0 (neg_ℤ p.stake) (money p.db2)
  after_debit p balanced =
      let (wal, found, covered, sum, nonneg, r) =
        debit-eq-ok wallet.0 (euros p.stake) db p.db1 p.b1 p.debited in
      let sum' : p.b1 ≡ wal.balance_minor +ℤ neg_ℤ p.stake = sum ∙ (omega int_laws) in
      let behind =
        Rewritten-IsAhead wallet.0 wal p.b1 (pos 0) (neg_ℤ p.stake) db p.db1 found sum' r
          (IsBalanced-IsAhead wallet.0 (money db) balanced) in
      same-IsAhead wallet.0 (omega int_laws) (debit-money p) behind

  -- the stake's entry brings it level again
  after_stake :
      (p : Played w settings user_id bets wallet db after result) (x : ℤ)
      → IsAhead wallet.0 (x +ℤ neg_ℤ p.stake) (money p.db3)
      → IsAhead wallet.0 x (money p.db5)
  after_stake p x h = same-IsAhead wallet.0 (omega int_laws) refl (
      Appended-IsAhead wallet.0 (neg_ℤ p.stake) p.b1 (x +ℤ neg_ℤ p.stake) p.entry p.db4 p.db5
        p.stake_entry (same-IsAhead wallet.0 refl p.round_money h))

  paid-IsBalanced :
      (p : Played w settings user_id bets wallet db after result) (b : ℤ)
      → pos 0 <ℤ p.payout
      → p.b2 ≡ some b
      → credit wallet.0 (euros p.payout) p.db2 ≡ (ok b, p.db3)
      → IsBalanced (money db)
      → IsBalanced (money after)
  paid-IsBalanced p b positive is_b credited balanced =
      let (wal, found, sum, nonneg, r) =
        credit-eq-ok wallet.0 (euros p.payout) p.db2 p.db3 b credited in
      let (entry, appended) =
        append_payout-some w settings wallet.0 p.payout p.round_id b p.db5 p.db6 p.payout_id
          positive (rw is_b at p.payout_entry) in
      let credit_ahead =
        Rewritten-IsAhead wallet.0 wal b (neg_ℤ p.stake) p.payout p.db2 p.db3 found sum r
          (after_debit p balanced) in
      let level =
        after_stake p p.payout (same-IsAhead wallet.0 (omega int_laws) refl credit_ahead) in
      let last = Appended-IsAhead wallet.0 p.payout b p.payout entry p.db5 p.db6 appended level in
      IsAhead-IsBalanced wallet.0 (money after)
        (same-IsAhead wallet.0 (omega int_laws) p.last_money last)

  unpaid-IsBalanced :
      (p : Played w settings user_id bets wallet db after result)
      → p.payout ≡ pos 0
      → p.b2 ≡ none
      → p.db3 ≡ p.db2
      → IsBalanced (money db)
      → IsBalanced (money after)
  unpaid-IsBalanced p zero_payout is_b same_db balanced =
      let same_end =
        append_payout-none w settings wallet.0 p.payout p.round_id p.db5 p.db6 p.payout_id
          (rw zero_payout (omega arith)) (rw is_b at p.payout_entry) in
      let level =
        after_stake p (pos 0)
          (same-IsAhead wallet.0 (omega int_laws) (ap money same_db) (after_debit p balanced)) in
      IsAhead-IsBalanced wallet.0 (money after)
        (same-IsAhead wallet.0 refl (p.last_money ∙ ap money same_end) level)

  pub Played-IsBalanced :
      Played w settings user_id bets wallet db after result
      → All HasStake bets
      → IsBalanced (money db)
      → IsBalanced (money after)
  Played-IsBalanced p stakes =
      elim (credit_payout-cases w settings wallet.0 p.payout p.db2 p.db3 p.b2 p.credited) [
        | inl (positive, b, is_b, credited) ↦ paid-IsBalanced p b positive is_b credited
        | inr (none_paid, is_b, same_db) ↦
            unpaid-IsBalanced p (omega (int_laws, payout_nonneg p stakes)) is_b same_db
      ]
