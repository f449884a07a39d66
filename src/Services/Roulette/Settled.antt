-- ===== src/Services/Roulette/Settled.antt =====
-- What a round that was played does to the balances.
use theclub_api.Prelude.{
  ℕ, ◌≡◌, sym, ap, ◌∙◌, true, none, some, List, All, arith, ◌==◌, if◌then◌else◌, ℤ, pos, ◌+ℤ◌, ◌-ℤ◌,
  ◌≤ℤ◌, ◌<ℤ◌, Bool-cases, int_laws, inl, inr,
}
use theclub_api.Result.{ok}
use theclub_api.Rows.{find_id, find_id-set_id}
use theclub_api.Domain.Money.{euros}
use theclub_api.Domain.Bets.{PlacedBet}
use theclub_api.Db.{Db, Wallet}
use theclub_api.Config.{Settings}
use theclub_api.World.{World}
use theclub_api.Repositories.Wallets.{Rewritten, debit-eq-ok, credit-eq-ok, credit}
use theclub_api.Exec.Frames.{framed}
use theclub_api.Services.Wallet.Balanced.{money, money-IgnoresSeeds}
use theclub_api.Services.Roulette.{PlaceBetResult}
use theclub_api.Services.Untouched.Play.{consume_nonce-Frames}
use theclub_api.Services.Roulette.Trace.{Played}
use theclub_api.Services.Roulette.Payment.{
  HasStake, credit_payout-cases, append_payout-some, append_payout-none, total_payout_nonneg,
}

-- The balances around a round: the wallet that was found held the stake, it ends with the balance that
-- is reported, which is the old one less the stakes plus the payouts, and no other balance changed.
pub record Settled (wallet_id : ℕ) (db after : Db) (result : PlaceBetResult) : Type 0 where
  pub wal : Wallet
  pub found : find_id wallet_id db.wallets ≡ some wal
  pub covered : result.total_stake_minor ≤ℤ wal.balance_minor
  pub balance :
      result.balance_minor
      ≡ wal.balance_minor -ℤ result.total_stake_minor +ℤ result.total_payout_minor
  pub net : result.net_minor ≡ result.total_payout_minor -ℤ result.total_stake_minor
  pub nonneg : pos 0 ≤ℤ result.balance_minor
  pub wallets :
      (k : ℕ)
      → find_id k after.wallets ≡ (
          if wallet_id == k
          then some (record wal { balance_minor = result.balance_minor })
          else find_id k db.wallets)

some_injective : {a b : Wallet} → some a ≡ some b → a ≡ b
some_injective e = cc

module _ {w : World} {settings : Settings} {user_id : ℕ} {bets : List PlacedBet}
    {wallet : ℕ × Wallet} {db after : Db} {result : PlaceBetResult} where
  -- from the debit to just before the credit the tables of money only see the debit
  pub debit-money :
      (p : Played w settings user_id bets wallet db after result) → money p.db2 ≡ money p.db1
  debit-money p = framed (consume_nonce-Frames money-IgnoresSeeds p.pair.0) p.consumed

  pub payout_nonneg :
      (p : Played w settings user_id bets wallet db after result)
      → All HasStake bets
      → pos 0 ≤ℤ p.payout
  payout_nonneg p stakes =
      rw p.is_payout (total_payout_nonneg bets _ p.resolved stakes p.is_resolved)

  -- the wallets before the credit, and after it to the end
  debit_wallets :
      (p : Played w settings user_id bets wallet db after result) (wal : Wallet)
      → Rewritten wallet.0 wal p.b1 db p.db1
      → (k : ℕ)
      → find_id k p.db2.wallets ≡ (
          if wallet.0 == k
          then some (record wal { balance_minor = p.b1 })
          else find_id k db.wallets)
  debit_wallets p wal r k =
      ap (λ m. find_id k m.0) (debit-money p)
      ∙ ap (λ (d : Db). find_id k d.wallets) r
      ∙ find_id-set_id k wallet.0 _ db.wallets

  last_wallets :
      (p : Played w settings user_id bets wallet db after result)
      → p.db6.wallets ≡ p.db5.wallets
      → after.wallets ≡ p.db3.wallets
  last_wallets p e =
      ap (λ m. m.0) p.last_money ∙ e ∙ p.stake_entry.wallets ∙ ap (λ m. m.0) p.round_money

  -- the wallet that the credit found is the one that the debit left
  found_after_debit :
      (p : Played w settings user_id bets wallet db after result) (wal wal' : Wallet)
      → Rewritten wallet.0 wal p.b1 db p.db1
      → find_id wallet.0 p.db2.wallets ≡ some wal'
      → wal' ≡ record wal { balance_minor = p.b1 }
  found_after_debit p wal wal' r found =
      let self : (wallet.0 == wallet.0) ≡ true = ground arith in
      some_injective (sym found ∙ debit_wallets p wal r wallet.0 ∙ (rw self))

  credit_wallets :
      (p : Played w settings user_id bets wallet db after result) (wal wal' : Wallet) (b : ℤ)
      → Rewritten wallet.0 wal p.b1 db p.db1
      → wal' ≡ record wal { balance_minor = p.b1 }
      → Rewritten wallet.0 wal' b p.db2 p.db3
      → (k : ℕ)
      → find_id k p.db3.wallets
        ≡ (if wallet.0 == k then some (record wal { balance_minor = b }) else find_id k db.wallets)
  credit_wallets p wal wal' b r same r' k =
      ap (λ (d : Db). find_id k d.wallets) r'
      ∙ find_id-set_id k wallet.0 _ p.db2.wallets
      ∙ elim (Bool-cases (wallet.0 == k)) [
        | inl here ↦ rw here (ap (λ (x : Wallet). some (record x { balance_minor = b })) same)
        | inr other ↦ (rw other) ∙ debit_wallets p wal r k ∙ (rw other)
      ]

  Settled-paid :
      (p : Played w settings user_id bets wallet db after result) (b : ℤ)
      → pos 0 <ℤ p.payout
      → p.b2 ≡ some b
      → credit wallet.0 (euros p.payout) p.db2 ≡ (ok b, p.db3)
      → Settled wallet.0 db after result
  Settled-paid p b positive is_b credited =
      let (wal, found, covered, sum, nonneg, r) =
        debit-eq-ok wallet.0 (euros p.stake) db p.db1 p.b1 p.debited in
      let (wal', found', sum', nonneg', r') =
        credit-eq-ok wallet.0 (euros p.payout) p.db2 p.db3 b credited in
      let same = found_after_debit p wal wal' r found' in
      let (entry, appended) =
        append_payout-some w settings wallet.0 p.payout p.round_id b p.db5 p.db6 p.payout_id
          positive (rw is_b at p.payout_entry) in
      let final : result.balance_minor ≡ b = p.result_balance ∙ (rw is_b) in
      record {
        wal = wal;
        found = found;
        covered = rw p.result_stake covered;
        balance =
            final
            ∙ (rw (p.result_stake, p.result_payout)
                (grind (int_laws, sum', ap (λ (x : Wallet). x.balance_minor) same, sum)));
        net = p.result_net ∙ (rw (p.result_stake, p.result_payout));
        nonneg = rw final nonneg';
        wallets = λ k.
            ap (find_id k) (last_wallets p appended.wallets)
            ∙ credit_wallets p wal wal' b r same r' k
            ∙ (rw final);
      }

  Settled-unpaid :
      (p : Played w settings user_id bets wallet db after result)
      → p.payout ≡ pos 0
      → p.b2 ≡ none
      → p.db3 ≡ p.db2
      → Settled wallet.0 db after result
  Settled-unpaid p zero_payout is_b same_db =
      let (wal, found, covered, sum, nonneg, r) =
        debit-eq-ok wallet.0 (euros p.stake) db p.db1 p.b1 p.debited in
      let final : result.balance_minor ≡ p.b1 = p.result_balance ∙ (rw is_b) in
      let same_end =
        append_payout-none w settings wallet.0 p.payout p.round_id p.db5 p.db6 p.payout_id
          (rw zero_payout (omega arith)) (rw is_b at p.payout_entry) in
      record {
        wal = wal;
        found = found;
        covered = rw p.result_stake covered;
        balance =
            final ∙ (rw (p.result_stake, p.result_payout, zero_payout) (grind (int_laws, sum)));
        net = p.result_net ∙ (rw (p.result_stake, p.result_payout));
        nonneg = rw final nonneg;
        wallets = λ k.
            ap (find_id k) (last_wallets p (ap (λ (d : Db). d.wallets) same_end))
            ∙ ap (λ (d : Db). find_id k d.wallets) same_db
            ∙ debit_wallets p wal r k
            ∙ (rw final);
      }

  pub Played-Settled :
      Played w settings user_id bets wallet db after result
      → All HasStake bets
      → Settled wallet.0 db after result
  Played-Settled p stakes =
      elim (credit_payout-cases w settings wallet.0 p.payout p.db2 p.db3 p.b2 p.credited) [
        | inl (positive, b, is_b, credited) ↦ Settled-paid p b positive is_b credited
        | inr (none_paid, is_b, same_db) ↦
            Settled-unpaid p (omega (int_laws, payout_nonneg p stakes)) is_b same_db
      ]
