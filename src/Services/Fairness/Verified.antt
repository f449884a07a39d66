-- ===== src/Services/Fairness/Verified.antt =====
-- What a client can check that was shown a hash, played, and then had the seed revealed.
use theclub_api.Prelude.{ℕ, String, ◌≡◌, refl, sym, ap, ◌∙◌, ◌+◌, some, List, [], ◌∷◌}
use theclub_api.Result.{ok, or_raise-eq-ok, data_integrity}
use theclub_api.Exec.{bind_returned, lift_returned, returned_eq}
use theclub_api.Rows.{
  IsKeyed, find_id, select, scalar_one_or_none-eq-some, find_id-select, select-selected,
  select-set_id, set_id, set_id-IsKeyed,
}
use theclub_api.Domain.Fairness.{Bytes}
use theclub_api.Domain.Money.{euros}
use theclub_api.Domain.Bets.{PlacedBet}
use theclub_api.Domain.Engine.{spin}
use theclub_api.Db.{Db, SeedPair, Wallet}
use theclub_api.Config.{Settings}
use theclub_api.World.{World}
use theclub_api.Repositories.Wallets.{debit-eq-ok}
use theclub_api.Repositories.SeedPairs.{is_active_of, get_active_by_user_id, consume_nonce-eq-ok}
use theclub_api.Services.Fairness.{
  CurrentSeedView, RotateSeedView, get_current_seed, rotate_seed, hex,
}
use theclub_api.Services.Fairness.Rotation.{rotate_seed_pairs}
use theclub_api.Services.Roulette.{BetRequest, PlaceBetResult, place_bet}
use theclub_api.Services.Roulette.Trace.{Played}
use theclub_api.Services.Roulette.PlaceBet.{place_bet-Played}

-- The user's active pair: the only one, in a table without two rows of one key.
abbrev pub Holds : ℕ → ℕ → SeedPair → Db → Type 0
Holds user_id id pair db =
    IsKeyed db.seed_pairs × (select (is_active_of user_id) db.seed_pairs ≡ (id, pair) ∷ [])

-- The pair with the nonce of the next spin.
abbrev pub next_pair : SeedPair → SeedPair
next_pair pair = record pair { nonce = pair.nonce + 1 }

module _ (w : World) (settings : Settings) (user_id : ℕ) where
  -- A round reads the pair that the user holds, and takes one nonce from its row.
  held_pair :
      (bets : List PlacedBet) (wallet : ℕ × Wallet) (db after : Db) (result : PlaceBetResult)
      (id : ℕ) (pair : SeedPair) (p : Played w settings user_id bets wallet db after result)
      → Holds user_id id pair db
      → (p.pair ≡ (id, pair))
        × (p.nonce ≡ pair.nonce + 1)
        × (after.seed_pairs ≡ set_id id (next_pair pair) db.seed_pairs)
  unfolding get_active_by_user_id
  held_pair bets wallet db after result id pair p (keyed, one) =
      let (_, _, _, _, _, r) = debit-eq-ok wallet.0 (euros p.stake) db p.db1 p.b1 p.debited in
      let same : p.db1.seed_pairs ≡ db.seed_pairs = ap (λ (d : Db). d.seed_pairs) r in
      let (row, found_row, next, written) =
        consume_nonce-eq-ok p.pair.0 p.db1 p.db2 p.nonce p.consumed in
      let active : select (is_active_of user_id) p.db1.seed_pairs ≡ p.pair ∷ [] =
        scalar_one_or_none-eq-some _ p.pair (ap (λ x. x.0) p.active) in
      let alone : p.pair ∷ [] ≡ (id, pair) ∷ [] =
        sym active ∙ ap (select (is_active_of user_id)) same ∙ one in
      let pair_eq : p.pair ≡ (id, pair) = cc alone in
      let found : find_id id db.seed_pairs ≡ some pair =
        find_id-select (is_active_of user_id) id pair db.seed_pairs keyed one in
      let held : some row ≡ some pair =
        sym found_row ∙ (λ i. find_id (pair_eq i).0 (same i)) ∙ found in
      let row_eq : row ≡ pair = cc held in
      let nonce_eq : p.nonce ≡ pair.nonce + 1 = next ∙ ap (λ (r : SeedPair). r.nonce + 1) row_eq in
      (
        pair_eq,
        nonce_eq,
        p.last_pairs
            ∙ ap (λ (d : Db). d.seed_pairs) written
            ∙ (λ i. set_id (pair_eq i).0 (record (row_eq i) { nonce = nonce_eq i }) (same i)),
      )

  -- so after a round the user holds the next pair, and the outcome is that of its nonce
  pub place_bet-Holds :
      (key : String) (requests : List BetRequest) (db after : Db) (result : PlaceBetResult) (id : ℕ)
      (pair : SeedPair)
      → place_bet w settings user_id key requests db ≡ (ok result, after)
      → Holds user_id id pair db
      → Holds user_id id (next_pair pair) after
        × (spin w.hmac w.spin_fuel (record {
          server_seed = pair.server_seed;
          client_seed = pair.client_seed;
          nonce = pair.nonce + 1;
        })
            ≡ some result.outcome)
  place_bet-Holds key requests db after result id pair h holds =
      let (wallet, _, _, p) = place_bet-Played w settings user_id key requests db after result h in
      let (pair_eq, nonce_eq, pairs_eq) = held_pair _ wallet db after result id pair p holds in
      let p_of = is_active_of user_id in
      let active = select-selected p_of id pair db.seed_pairs holds.1 in
      (
        (
          rw pairs_eq (set_id-IsKeyed id (next_pair pair) db.seed_pairs holds.0),
          ap (select p_of) pairs_eq
              ∙ select-set_id p_of id pair (next_pair pair) db.seed_pairs holds.0 holds.1 active,
        ),
        (λ i. spin w.hmac w.spin_fuel (record {
          server_seed = (sym pair_eq i).1.server_seed;
          client_seed = (sym pair_eq i).1.client_seed;
          nonce = sym nonce_eq i;
        }))
            ∙ p.spun,
      )

-- The way of the database from where a client reads its seed: the rounds of the user that returned, in
-- order, and between them anything that leaves the user's active pair as it was.
pub data Course (w : World) (settings : Settings) (user_id : ℕ)
    : Db → List PlaceBetResult → Db → Type 0 where
  stop : {db : Db} → Course w settings user_id db [] db
  round :
      {db mid after : Db} {result : PlaceBetResult} {results : List PlaceBetResult} (key : String)
      (requests : List BetRequest)
      → place_bet w settings user_id key requests db ≡ (ok result, mid)
      → Course w settings user_id mid results after
      → Course w settings user_id db (result ∷ results) after
  other :
      {db mid after : Db} {results : List PlaceBetResult}
      → select (is_active_of user_id) mid.seed_pairs ≡ select (is_active_of user_id) db.seed_pairs
      → IsKeyed mid.seed_pairs
      → Course w settings user_id mid results after
      → Course w settings user_id db results after

-- Recomputed from the two seeds with the nonces above `nonce`, one by one, the outcomes are right.
abbrev pub IsVerified : World → Bytes → Bytes → ℕ → List PlaceBetResult → Type 0
IsVerified w server_seed client_seed nonce [] = Unit
IsVerified w server_seed client_seed nonce (result ∷ results) =
    (spin w.hmac w.spin_fuel
        (record { server_seed = server_seed; client_seed = client_seed; nonce = nonce + 1 })
      ≡ some result.outcome)
    × IsVerified w server_seed client_seed (nonce + 1) results

-- The hash of every seed pair is that of its server seed.
abbrev pub IsHashed : World → Db → Type 0
IsHashed w db =
    (id : ℕ) (pair : SeedPair)
    → find_id id db.seed_pairs ≡ some pair
    → pair.server_seed_hash ≡ w.sha256_hex pair.server_seed

module _ (w : World) (settings : Settings) (user_id : ℕ) where
  -- At the end of a course the user holds the same seeds and hash, and the rounds are right.
  Course-Holds :
      (db after : Db) (results : List PlaceBetResult) (id : ℕ) (pair : SeedPair)
      → Course w settings user_id db results after
      → Holds user_id id pair db
      → (last : SeedPair) × Holds user_id id last after
        × (last.server_seed ≡ pair.server_seed)
        × (last.server_seed_hash ≡ pair.server_seed_hash)
        × IsVerified w pair.server_seed pair.client_seed pair.nonce results
  Course-Holds db _ [] id pair stop holds = (pair, holds, refl, refl, tt)
  Course-Holds db after _ id pair (round {mid} {result} {results} key requests h rest) holds =
      let (held, outcome) =
        place_bet-Holds w settings user_id key requests db mid result id pair h holds in
      let (last, ends, seed, hash, right) =
        Course-Holds mid after results id (next_pair pair) rest held in
      (last, ends, seed, hash, (outcome, right))
  Course-Holds db after results id pair (other {mid} same keyed rest) holds =
      Course-Holds mid after results id pair rest (keyed, same ∙ holds.1)

  -- Let no two seed pairs have one key, and let each have the hash of its server seed. A client was
  -- shown a hash, a client seed and a nonce; its rounds then returned results, and between them happened
  -- what left its active pair as it was and no two pairs with one key; and a rotation revealed a
  -- server seed. Then that seed has the hash that was shown, and the outcome of the n-th round is what
  -- the two seeds give for the shown nonce plus n.
  pub rotate_seed-IsVerified :
      (db after later : Db) (shown : CurrentSeedView) (results : List PlaceBetResult)
      (view : RotateSeedView)
      → IsKeyed db.seed_pairs
      → IsHashed w db
      → get_current_seed w user_id db ≡ (ok shown, db)
      → Course w settings user_id db results after
      → rotate_seed w user_id after ≡ (ok view, later)
      → (server_seed : Bytes) × (view.revealed_server_seed ≡ hex server_seed)
        × (view.revealed_server_seed_hash ≡ shown.server_seed_hash)
        × (w.sha256_hex server_seed ≡ shown.server_seed_hash)
        × IsVerified w server_seed shown.client_seed shown.nonce results
  unfolding get_current_seed get_active_by_user_id
  rotate_seed-IsVerified db after later shown results view keyed hashed h course rotated =
      bind_returned _ _ _ _ _ h λ active db1 e1 h1. bind_returned _ _ _ _ _ h1 λ pair db2 e2 h2.
        let found = or_raise-eq-ok active data_integrity pair (lift_returned _ pair db1 db2 e2).0 in
        let p_of = is_active_of user_id in
        let one : select p_of db.seed_pairs ≡ pair ∷ [] =
          scalar_one_or_none-eq-some _ pair (ap (λ x. x.0) e1 ∙ ap ok found) in
        let (last, ends, seed, hash, right) =
          Course-Holds db after results pair.0 pair.1 course (keyed, one) in
        let row : find_id pair.0 db.seed_pairs ≡ some pair.1 =
          find_id-select p_of pair.0 pair.1 db.seed_pairs keyed one in
        let (old, _, was, _, revealed, hash_of, _, _, _, _) =
          rotate_seed_pairs w user_id after later view rotated in
        let alone : old ∷ [] ≡ (pair.0, last) ∷ [] =
          sym (scalar_one_or_none-eq-some _ old (ap (λ x. x.0) was)) ∙ ends.1 in
        let old_eq : old ≡ (pair.0, last) = cc alone in
        let shown_eq = (returned_eq h2).0 in
        (
          pair.1.server_seed,
          revealed ∙ ap (λ (o : ℕ × SeedPair). hex o.1.server_seed) old_eq ∙ ap hex seed,
          hash_of
              ∙ ap (λ (o : ℕ × SeedPair). o.1.server_seed_hash) old_eq
              ∙ hash
              ∙ ap (λ (v : CurrentSeedView). v.server_seed_hash) shown_eq,
          sym (hashed pair.0 pair.1 row)
              ∙ ap (λ (v : CurrentSeedView). v.server_seed_hash) shown_eq,
          rw (sym shown_eq) right,
        )
