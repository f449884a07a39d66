-- ===== src/Services/Untouched/Play.antt =====
-- The statements of a round write the wallets, the ledger, the seed pairs, the rounds, the bets and the outbox.
use theclub_api.Services.Roulette.Events.{
  RoundContext, emit_bets, emit_payout, enqueue_round_events,
}
use theclub_api.Prelude.{
  arith, ℕ, String, ◌≡◌, refl, Bool-cases, inl, inr, Option, none, some, List, [], ◌∷◌, ℤ, pos,
  ltb_ℤ,
}
use theclub_api.Result.{Result, ok, err, assertion_error}
use theclub_api.Exec.Frames.{
  Frames, Frames-bind, Frames-gets, Frames-lift, Frames-pure, frames_rules,
}
use theclub_api.Rows.{Table, find_id, insert_row}
use theclub_api.Domain.Bets.{PlacedBet}
use theclub_api.Domain.Engine.{ResolvedBet}
use theclub_api.Db.{Db, Wallet, Round, Bet, SeedPair}
use theclub_api.Config.{Settings}
use theclub_api.World.{World}
use theclub_api.Repositories.SeedPairs.{get_active_by_user_id, consume_nonce, consume_row}
use theclub_api.Repositories.Rounds.{
  ResolvedBetInput, put_rounds, put_bets, insert_round, insert_bet, insert_bets,
  create_settled_round,
}
use theclub_api.Services.Roulette.{BetRequest, credit_payout, append_payout, play, place_bet}
use theclub_api.Services.Untouched.{
  Ignores, IgnoresMoney, IgnoresSeeds, new_uuid-Frames, read_clock-Frames, emit-Frames,
  require_wallet-Frames,
}
use theclub_api.Services.Untouched.Payments.{credit-Frames, debit-Frames, append-Frames}

pub get_active-Frames :
    {X : Type 0} {part : Db → X} (user_id : ℕ) → Frames part (get_active_by_user_id user_id)
unfolding get_active_by_user_id
get_active-Frames user_id = record { at = λ db. refl }

module _ {X : Type 0} {part : Db → X} (seeds : IgnoresSeeds part) where
  consume_row-part :
      (id : ℕ) (o : Option SeedPair) (db : Db) → part (consume_row id o db).1 ≡ part db
  consume_row-part id none db = refl
  consume_row-part id (some pair) db = seeds.of_seed_pairs db _

  pub consume_nonce-Frames : (id : ℕ) → Frames part (consume_nonce id)
  unfolding consume_nonce
  consume_nonce-Frames id = record { at = λ db. consume_row-part id (find_id id db.seed_pairs) db }

module _ {X : Type 0} {part : Db → X} (ignores : Ignores part) where
  put_rounds-part :
      (r : Round) (id : ℕ) (t : Result (Table Round)) (db : Db)
      → part (put_rounds r id t db).1 ≡ part db
  put_rounds-part r id (ok t) db = ignores.of_rounds db t
  put_rounds-part r id (err e) db = refl

  put_bets-part :
      (b : Bet) (id : ℕ) (t : Result (Table Bet)) (db : Db) → part (put_bets b id t db).1 ≡ part db
  put_bets-part b id (ok t) db = ignores.of_bets db t
  put_bets-part b id (err e) db = refl

  insert_round-Frames : (r : Round) (outcome id : ℕ) → Frames part (insert_round r outcome id)
  unfolding insert_round
  insert_round-Frames r outcome id = record {
    at = λ db. ground (arith, put_rounds-part r id (insert_row id r db.rounds) db);
  }

  insert_bet-Frames : (b : Bet) (id : ℕ) → Frames part (insert_bet b id)
  unfolding insert_bet
  insert_bet-Frames b id = record {
    at = λ db. ground (arith, put_bets-part b id (insert_row id b db.bets) db);
  }

module _ {X : Type 0} {part : Db → X} (ignores : Ignores part) (w : World) where
  insert_bets-Frames :
      (id : ℕ) (inputs : List ResolvedBetInput) → Frames part (insert_bets w id inputs)
  unfolding insert_bets
  insert_bets-Frames id [] = search frames_rules
  insert_bets-Frames id (input ∷ inputs) = Frames-bind _ _ (new_uuid-Frames ignores w) λ k.
      Frames-bind _ _ (insert_bet-Frames ignores _ k)
        λ row. Frames-bind _ _ (insert_bets-Frames id inputs) λ rows. Frames-pure (row ∷ rows)

  pub create_settled_round-Frames :
      (user_id seed_pair_id nonce outcome : ℕ) (bets : List ResolvedBetInput)
      → Frames part (create_settled_round w user_id seed_pair_id nonce outcome bets)
  unfolding create_settled_round
  create_settled_round-Frames user_id seed_pair_id nonce outcome bets =
      Frames-bind _ _ (read_clock-Frames ignores w) λ now.
        Frames-bind _ _ (new_uuid-Frames ignores w) λ id.
          Frames-bind _ _ (Frames-gets _) λ created_at.
            Frames-bind _ _ (insert_round-Frames ignores _ outcome id) λ round_id.
              Frames-bind _ _ (insert_bets-Frames round_id bets)
                λ rows. Frames-pure (round_id, rows)

  module _ (settings : Settings) (ctx : RoundContext) where
    emit_bets-Frames : (rest : List (ℕ × ResolvedBet)) → Frames part (emit_bets w settings ctx rest)
    unfolding emit_bets
    emit_bets-Frames [] = search frames_rules
    emit_bets-Frames ((id, r) ∷ rest) =
        Frames-bind _ _ (emit-Frames ignores w _ _ _ _) λ _. emit_bets-Frames rest

    emit_payout-Frames :
        (id : Option ℕ) (b : Option ℤ) → Frames part (emit_payout w settings ctx id b)
    unfolding emit_payout
    emit_payout-Frames none b = search frames_rules
    emit_payout-Frames (some id) none = search frames_rules
    emit_payout-Frames (some id) (some b) = emit-Frames ignores w _ _ _ _

    pub enqueue_round_events-Frames : Frames part (enqueue_round_events w settings ctx)
    unfolding enqueue_round_events
    enqueue_round_events-Frames =
        search (frames_rules, emit-Frames ignores w, emit_bets-Frames, emit_payout-Frames)

module _ {X : Type 0} {part : Db → X} (ignores : Ignores part) (money : IgnoresMoney part)
    (w : World) (settings : Settings) where
  pub credit_payout-Frames :
      (wallet_id : ℕ) (payout : ℤ) → Frames part (credit_payout w settings wallet_id payout)
  unfolding credit_payout
  credit_payout-Frames wallet_id payout = elim (Bool-cases (ltb_ℤ (pos 0) payout)) [
    | inl paid ↦ rw paid (search (frames_rules, credit-Frames money))
    | inr nothing ↦ rw nothing (Frames-pure none)
  ]

  pub append_payout-Frames :
      (wallet_id : ℕ) (payout : ℤ) (balance : Option ℤ) (round_id : ℕ)
      → Frames part (append_payout w settings wallet_id payout balance round_id)
  unfolding append_payout
  append_payout-Frames wallet_id payout none round_id = elim (Bool-cases (ltb_ℤ (pos 0) payout)) [
    | inl paid ↦ rw paid (Frames-lift (err assertion_error))
    | inr nothing ↦ rw nothing (Frames-pure none)
  ]
  append_payout-Frames wallet_id payout (some b) round_id =
      elim (Bool-cases (ltb_ℤ (pos 0) payout)) [
        | inl paid ↦ rw paid (search (frames_rules, append-Frames ignores money w))
        | inr nothing ↦ rw nothing (Frames-pure none)
      ]

  module _ (seeds : IgnoresSeeds part) where
    play-Frames :
        (user_id : ℕ) (key : String) (bets : List PlacedBet) (wallet : ℕ × Wallet)
        → Frames part (play w settings user_id key bets wallet)
    unfolding play
    play-Frames user_id key bets wallet =
        search
          (
            frames_rules,
            debit-Frames money,
            get_active-Frames,
            consume_nonce-Frames seeds,
            credit_payout-Frames,
            create_settled_round-Frames ignores w,
            append-Frames ignores money w,
            append_payout-Frames,
            enqueue_round_events-Frames ignores w settings,
          )
          depth 14

    pub place_bet-Frames :
        (user_id : ℕ) (key : String) (bet_requests : List BetRequest)
        → Frames part (place_bet w settings user_id key bet_requests)
    unfolding place_bet
    place_bet-Frames user_id key bet_requests =
        search (frames_rules, require_wallet-Frames, play-Frames)
