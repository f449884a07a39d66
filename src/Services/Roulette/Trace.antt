-- ===== src/Services/Roulette/Trace.antt =====
-- What a round that was played has done, step by step.
use theclub_api.Prelude.{
  ℕ, String, ◌≡◌, refl, sym, ap, ◌∙◌, Option, some, List, map, ℤ, neg_ℤ, ◌-ℤ◌,
}
use theclub_api.Result.{ok, or_raise, or_raise-eq-ok, data_integrity}
use theclub_api.Exec.{lift_returned, bind_returned, returned_eq}
use theclub_api.Exec.Frames.{framed}
use theclub_api.Domain.Money.{euros}
use theclub_api.Domain.Bets.{PlacedBet}
use theclub_api.Domain.Engine.{ResolvedBet, spin, resolve_bets, total_stake, total_payout}
use theclub_api.Db.{Db, Wallet, SeedPair, LedgerEntry}
use theclub_api.Config.{Settings}
use theclub_api.World.{World}
use theclub_api.Rows.{Table}
use theclub_api.Repositories.Wallets.{debit}
use theclub_api.Repositories.Ledger.{Appended, append-eq-ok}
use theclub_api.Repositories.SeedPairs.{get_active_by_user_id, get_active_same, consume_nonce}
use theclub_api.Services.Wallet.Balanced.{money, money-Ignores}
use theclub_api.Services.Roulette.{
  PlaceBetResult, play, credit_payout, append_payout, final_balance, bet_view,
}
use theclub_api.Services.Untouched.{Ignores, IgnoresMoney}
use theclub_api.Services.Untouched.Payments.{append-Frames}
use theclub_api.Services.Untouched.Play.{
  create_settled_round-Frames, enqueue_round_events-Frames, credit_payout-Frames,
  append_payout-Frames,
}

-- The part of the database that holds the seeds.
abbrev pub pairs : Db → Table SeedPair
pairs db = db.seed_pairs

pairs-Ignores : Ignores pairs
pairs-Ignores = record {
  of_calls = λ db n. refl;
  of_outbox = λ db t. refl;
  of_rounds = λ db t. refl;
  of_bets = λ db t. refl;
}

pairs-IgnoresMoney : IgnoresMoney pairs
pairs-IgnoresMoney = record { of_wallets = λ db t. refl; of_ledger = λ db l. refl }

-- Between `db` and `after`: the debit, the spin of the seed pair's next nonce, the credit of a payout,
-- and the ledger entries of both. The other steps move no money, and none after the
-- spin touches a seed pair.
pub record Played (w : World) (settings : Settings) (user_id : ℕ) (bets : List PlacedBet)
    (wallet : ℕ × Wallet) (db after : Db) (result : PlaceBetResult) : Type 0 where
  pub stake : ℤ
  pub is_stake : stake ≡ total_stake bets
  pub b1 : ℤ
  pub db1 : Db
  pub debited : debit wallet.0 (euros stake) db ≡ (ok b1, db1)
  pub pair : ℕ × SeedPair
  pub nonce : ℕ
  pub db2 : Db
  pub active : get_active_by_user_id user_id db1 ≡ (ok (some pair), db1)
  pub consumed : consume_nonce pair.0 db1 ≡ (ok nonce, db2)
  pub spun :
      spin w.hmac w.spin_fuel (record {
        server_seed = pair.1.server_seed;
        client_seed = pair.1.client_seed;
        nonce = nonce;
      })
      ≡ some result.outcome
  pub resolved : List ResolvedBet
  pub is_resolved : resolve_bets bets result.outcome ≡ ok resolved
  pub payout : ℤ
  pub is_payout : payout ≡ total_payout resolved
  pub b2 : Option ℤ
  pub db3 : Db
  pub credited : credit_payout w settings wallet.0 payout db2 ≡ (ok b2, db3)
  pub db4 : Db
  pub round_money : money db4 ≡ money db3
  pub entry : LedgerEntry
  pub db5 : Db
  pub stake_entry : Appended wallet.0 (neg_ℤ stake) b1 entry db4 db5
  pub payout_id : Option ℕ
  pub round_id : ℕ
  pub db6 : Db
  pub payout_entry : append_payout w settings wallet.0 payout b2 round_id db5 ≡ (ok payout_id, db6)
  pub last_money : money after ≡ money db6
  pub last_pairs : pairs after ≡ pairs db2
  pub result_stake : result.total_stake_minor ≡ stake
  pub result_payout : result.total_payout_minor ≡ payout
  pub result_net : result.net_minor ≡ payout -ℤ stake
  pub result_balance : result.balance_minor ≡ final_balance w settings b2 b1
  pub result_bets : result.bets ≡ map bet_view resolved

-- A round that returned was played so.
pub play-Played :
    (w : World) (settings : Settings) (user_id : ℕ) (key : String) (bets : List PlacedBet)
    (wallet : ℕ × Wallet) (db after : Db) (result : PlaceBetResult)
    → play w settings user_id key bets wallet db ≡ (ok result, after)
    → Played w settings user_id bets wallet db after result
unfolding play
play-Played w settings user_id key bets wallet db after result h =
    bind_returned _ _ _ _ _ h λ b1 db1 e1 h1. bind_returned _ _ _ _ _ h1 λ active db1' e2 h2.
      bind_returned _ _ _ _ _ h2 λ pair db1'' e3 h3. bind_returned _ _ _ _ _ h3 λ nonce db2 e4 h4.
        bind_returned _ _ _ _ _ h4 λ outcome db2' e5 h5.
          bind_returned _ _ _ _ _ h5 λ resolved db2'' e6 h6.
            bind_returned _ _ _ _ _ h6 λ b2 db3 e7 h7.
              bind_returned _ _ _ _ _ h7 λ created db4 e8 h8.
                bind_returned _ _ _ _ _ h8 λ entry db5 e9 h9.
                  bind_returned _ _ _ _ _ h9 λ payout_id db6 e10 h10.
                    bind_returned _ _ _ _ _ h10 λ _ db7 e11 h11.
                      let l3 = lift_returned (or_raise active data_integrity) pair db1' db1'' e3 in
                      let l5 = lift_returned _ outcome db2 db2' e5 in
                      let l6 = lift_returned (resolve_bets bets outcome) resolved db2' db2'' e6 in
                      let still = get_active_same user_id db1 db1' e2 in
                      let pair_found = or_raise-eq-ok active data_integrity pair l3.0 in
                      let done = returned_eq h11 in
                      let outcome_eq = ap (λ (r : PlaceBetResult). r.outcome) done.0 in
                      record {
                        stake = total_stake bets;
                        is_stake = refl;
                        b1 = b1;
                        db1 = db1;
                        debited = e1;
                        pair = pair;
                        nonce = nonce;
                        db2 = db2;
                        active = e2 ∙ (λ i. (ok (pair_found i), still i));
                        consumed = ap (consume_nonce pair.0) (sym (l3.1 ∙ still)) ∙ e4;
                        spun = or_raise-eq-ok _ _ outcome l5.0 ∙ ap some outcome_eq;
                        resolved = resolved;
                        is_resolved = ap (resolve_bets bets) (sym outcome_eq) ∙ l6.0;
                        payout = total_payout resolved;
                        is_payout = refl;
                        b2 = b2;
                        db3 = db3;
                        credited =
                            ap (credit_payout w settings wallet.0 _) (sym (l6.1 ∙ l5.1)) ∙ e7;
                        db4 = db4;
                        round_money =
                            framed (create_settled_round-Frames money-Ignores w _ _ _ _ _) e8;
                        entry = entry;
                        db5 = db5;
                        stake_entry = append-eq-ok w wallet.0 _ b1 _ _ _ entry db4 db5 e9;
                        payout_id = payout_id;
                        round_id = created.0;
                        db6 = db6;
                        payout_entry = e10;
                        last_money =
                            ap money (sym done.1)
                            ∙ framed (enqueue_round_events-Frames money-Ignores w settings _) e11;
                        last_pairs =
                            ap pairs (sym done.1)
                            ∙ framed (enqueue_round_events-Frames pairs-Ignores w settings _) e11
                            ∙ framed
                                (append_payout-Frames pairs-Ignores pairs-IgnoresMoney w settings _
                                  _ _ _)
                                e10
                            ∙ framed (append-Frames pairs-Ignores pairs-IgnoresMoney w _ _ _ _ _ _)
                                e9
                            ∙ framed (create_settled_round-Frames pairs-Ignores w _ _ _ _ _) e8
                            ∙ framed
                                (credit_payout-Frames pairs-Ignores pairs-IgnoresMoney w settings _
                                  _)
                                e7
                            ∙ ap pairs (l6.1 ∙ l5.1);
                        result_stake =
                            ap (λ (r : PlaceBetResult). r.total_stake_minor) (sym done.0);
                        result_payout =
                            ap (λ (r : PlaceBetResult). r.total_payout_minor) (sym done.0);
                        result_net = ap (λ (r : PlaceBetResult). r.net_minor) (sym done.0);
                        result_balance = ap (λ (r : PlaceBetResult). r.balance_minor) (sym done.0);
                        result_bets = ap (λ (r : PlaceBetResult). r.bets) (sym done.0);
                      }
