-- ===== src/Repositories/SeedPairs.antt =====
-- app/repositories/seed_pairs.py, and the partial unique index of app/models/fairness.py.
use theclub_api.Prelude.{
  sym, ap, Bool-cases, [], ◌∷◌, ◌++◌, ℕ, ◌+◌, ◌≡◌, Bool, true, false, ◌&&◌, Option, none, some,
  arith, ◌==◌, any, if◌then◌else◌, inl, inr, Option-cases,
}
use theclub_api.Result.{Result, ok, err, integrity_error, no_result}
use theclub_api.Exec.{Exec, ◌>>=◌}
use theclub_api.Domain.Fairness.{Bytes}
use theclub_api.Rows.{Table, find_id, set_id, insert_row, select, scalar_one_or_none}
use theclub_api.Db.{Db, SeedPair, SeedStatus}
use theclub_api.World.{World, new_uuid, read_clock}

abbrev pub is_active : SeedPair → Bool
is_active pair = elim pair.status [ SeedStatus.active ↦ true | SeedStatus.revealed ↦ false ]

abbrev pub is_active_of : ℕ → SeedPair → Bool
is_active_of user_id pair = pair.user_id == user_id && is_active pair

-- `SeedPairRepository.get_active_by_user_id`
unfoldable pub get_active_by_user_id : ℕ → Exec Db (Option (ℕ × SeedPair))
get_active_by_user_id user_id db =
    (scalar_one_or_none (select (is_active_of user_id) db.seed_pairs), db)

-- `INSERT INTO seed_pairs` of an active pair: the index refuses a second one of the user
abbrev pub put_pairs : SeedPair → ℕ → Result (Table SeedPair) → Exec Db (ℕ × SeedPair)
put_pairs pair id (ok pairs) db = (ok (id, pair), record db { seed_pairs = pairs })
put_pairs pair id (err e) db = (err e, db)

unfoldable pub insert_active : SeedPair → ℕ → Exec Db (ℕ × SeedPair)
insert_active pair id db =
    if any (λ row. is_active_of pair.user_id row.1) db.seed_pairs
    then (err integrity_error, db)
    else put_pairs pair id (insert_row id pair db.seed_pairs) db

-- `SeedPairRepository.create_active`
unfoldable pub create_active : World → ℕ → Bytes → Bytes → Bytes → Exec Db (ℕ × SeedPair)
create_active w user_id server_seed server_seed_hash client_seed = do
  id ← new_uuid w
  insert_active
      (record {
        user_id = user_id;
        server_seed = server_seed;
        server_seed_hash = server_seed_hash;
        client_seed = client_seed;
        nonce = 0;
        status = SeedStatus.active;
        revealed_at = none;
      })
      id

abbrev pub consume_row : ℕ → Option SeedPair → Exec Db ℕ
consume_row id none db = (err no_result, db)
consume_row id (some pair) db =
    let next = record pair { nonce = pair.nonce + 1 } in
    (ok (pair.nonce + 1), record db { seed_pairs = set_id id next db.seed_pairs })

-- `SeedPairRepository.consume_nonce`
unfoldable pub consume_nonce : ℕ → Exec Db ℕ
consume_nonce id db = consume_row id (find_id id db.seed_pairs) db

abbrev reveal_row : ℕ → ℕ → Option SeedPair → Exec Db (Unit {0})
reveal_row id now none db = (ok tt, db)
reveal_row id now (some pair) db =
    let next = record pair { status = SeedStatus.revealed; revealed_at = some now } in
    (ok tt, record db { seed_pairs = set_id id next db.seed_pairs })

-- `SeedPairRepository.reveal_and_deactivate`
unfoldable pub reveal_and_deactivate : World → ℕ → Exec Db (Unit {0})
reveal_and_deactivate w id = do
  now ← read_clock w
  λ db. reveal_row id now (find_id id db.seed_pairs) db

-- A nonce that is returned is one more than the row held, and the row holds it from then on.
pub consume_nonce-eq-ok :
    (id : ℕ) (db after : Db) (n : ℕ)
    → consume_nonce id db ≡ (ok n, after)
    → (pair : SeedPair) × (find_id id db.seed_pairs ≡ some pair)
      × (n ≡ pair.nonce + 1)
      × (after ≡ record db { seed_pairs = set_id id (record pair { nonce = n }) db.seed_pairs })
unfolding consume_nonce
consume_nonce-eq-ok id db after n h = elim (Option-cases (find_id id db.seed_pairs)) [
  | inl missing ↦ absurd (ground arith)
  | inr (pair, found) ↦ (pair, found, ground arith, ground arith)
]

-- A lookup leaves the state alone.
pub get_active_same :
    (user_id : ℕ) (s t : Db) {r : Result (Option (ℕ × SeedPair))}
    → get_active_by_user_id user_id s ≡ (r, t)
    → t ≡ s
unfolding get_active_by_user_id
get_active_same user_id s t h = ap (λ p. p.1) (sym h)

-- An insertion that returned found no active pair of the user, and added the row.
pub insert_active-eq-ok :
    (pair : SeedPair) (id : ℕ) (db after : Db) (row : ℕ × SeedPair)
    → insert_active pair id db ≡ (ok row, after)
    → (any (λ r. is_active_of pair.user_id r.1) db.seed_pairs ≡ false)
      × (row ≡ (id, pair))
      × (after.seed_pairs ≡ db.seed_pairs ++ (id, pair) ∷ [])
unfolding insert_active insert_row
insert_active-eq-ok pair id db after row h =
    elim (Bool-cases (any (λ r. is_active_of pair.user_id r.1) db.seed_pairs)) [
      | inl taken ↦ absurd (ground arith)
      | inr free ↦ elim (Option-cases (find_id id db.seed_pairs)) [
        | inl fresh ↦ (free, ground arith, ground arith)
        | inr (other, found) ↦ absurd (ground arith)
      ]
    ]
