-- ===== src/Repositories/Rounds.antt =====
-- app/repositories/rounds.py, `create_settled_round`, and the constraints of app/models/round.py.
use theclub_api.Prelude.{
  ℕ, Bool, not, ◌&&◌, ◌||◌, some, List, [], ◌∷◌, ltb, ◌==◌, any, if◌then◌else◌, ℤ, pos, leb_ℤ,
  ltb_ℤ,
}
use theclub_api.Result.{Result, ok, err, integrity_error, data_error}
use theclub_api.Exec.{Exec, pure, gets, ◌>>=◌}
use theclub_api.Domain.Table.{BetType}
use theclub_api.Domain.Bets.{Selection}
use theclub_api.Rows.{Table, insert_row}
use theclub_api.Db.{Db, Round, RoundStatus, Bet, BetStatus, fits_bigint}
use theclub_api.World.{World, new_uuid, read_clock}

pub record ResolvedBetInput : Type 0 where
  pub bet_type : BetType
  pub selection : Selection
  pub stake_minor : ℤ
  pub payout_minor : ℤ
  pub won : Bool

abbrev pub put_rounds : Round → ℕ → Result (Table Round) → Exec Db ℕ
put_rounds r id (ok rounds) db = (ok id, record db { rounds = rounds })
put_rounds r id (err e) db = (err e, db)

-- `INSERT INTO rounds`: a settled round; UNIQUE(seed_pair_id, nonce) and the CHECK of the outcome
unfoldable pub insert_round : Round → ℕ → ℕ → Exec Db ℕ
insert_round r outcome id db =
    if any (λ row. row.1.seed_pair_id == r.seed_pair_id && row.1.nonce == r.nonce) db.rounds
    then (err integrity_error, db)
    else if ltb 36 outcome
    then (err integrity_error, db)
    else put_rounds r id (insert_row id r db.rounds) db

abbrev pub put_bets : Bet → ℕ → Result (Table Bet) → Exec Db (ℕ × Bet)
put_bets b id (ok bets) db = (ok (id, b), record db { bets = bets })
put_bets b id (err e) db = (err e, db)

-- `INSERT INTO bets`: the BIGINTs and the CHECKs of the amounts
unfoldable pub insert_bet : Bet → ℕ → Exec Db (ℕ × Bet)
insert_bet b id db =
    if not (fits_bigint b.stake_minor) || not (fits_bigint b.payout_minor)
    then (err data_error, db)
    else if leb_ℤ b.stake_minor (pos 0) || ltb_ℤ b.payout_minor (pos 0)
    then (err integrity_error, db)
    else put_bets b id (insert_row id b db.bets) db

abbrev pub bet_row : ℕ → ResolvedBetInput → Bet
bet_row round_id input = record {
  round_id = round_id;
  bet_type = input.bet_type;
  selection = input.selection;
  stake_minor = input.stake_minor;
  payout_minor = input.payout_minor;
  status = if input.won then BetStatus.won else BetStatus.lost;
}

-- the rows of the round, in the order of the bets
unfoldable pub insert_bets : World → ℕ → List ResolvedBetInput → Exec Db (List (ℕ × Bet))
insert_bets w round_id [] = pure []
insert_bets w round_id (input ∷ inputs) = do
  id ← new_uuid w
  row ← insert_bet (bet_row round_id input) id
  rows ← insert_bets w round_id inputs
  pure (row ∷ rows)

-- `RoundRepository.create_settled_round`
unfoldable pub create_settled_round :
    World → ℕ → ℕ → ℕ → ℕ → List ResolvedBetInput → Exec Db (ℕ × List (ℕ × Bet))
create_settled_round w user_id seed_pair_id nonce outcome bets = do
  now ← read_clock w
  id ← new_uuid w
  created_at ← gets (λ db. db.started)
  round_id ←
      insert_round
        (record {
          user_id = user_id;
          seed_pair_id = seed_pair_id;
          nonce = nonce;
          outcome = some outcome;
          status = RoundStatus.settled;
          settled_at = some now;
          created_at = created_at;
        })
        outcome id
  rows ← insert_bets w round_id bets
  pure (round_id, rows)
