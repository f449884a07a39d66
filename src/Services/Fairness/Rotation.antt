-- ===== src/Services/Fairness/Rotation.antt =====
-- What a rotation of a user's seeds leaves.
use theclub_api.Prelude.{ℕ, ◌≡◌, refl, sym, ap, ◌∙◌, true, some, [], ◌∷◌, arith}
use theclub_api.Result.{ok, or_raise, or_raise-eq-ok, data_integrity}
use theclub_api.Exec.{lift, pure, lift_returned, bind_returned, bind_step, ◌>>=◌, returned_eq}
use theclub_api.Rows.{select_none, select-append_row, select, scalar_one_or_none}
use theclub_api.Db.{Db, SeedPair}
use theclub_api.World.{World}
use theclub_api.Repositories.SeedPairs.{
  is_active_of, get_active_by_user_id, create_active, insert_active, insert_active-eq-ok,
  get_active_same,
}
use theclub_api.Services.Fairness.{
  CurrentSeedView, RotateSeedView, get_current_seed, rotate_seed, hex,
}

-- An insertion of an active pair that returned leaves it as the only active pair of its user.
insert_active_only :
    (pair : SeedPair) (id : ℕ) (db after : Db) (row : ℕ × SeedPair)
    → is_active_of pair.user_id pair ≡ true
    → insert_active pair id db ≡ (ok row, after)
    → (row ≡ (id, pair))
      × (get_active_by_user_id pair.user_id after ≡ (ok (some (id, pair)), after))
unfolding get_active_by_user_id
insert_active_only pair id db after row active h =
    let (free, same, rows) = insert_active-eq-ok pair id db after row h in
    let one : select (is_active_of pair.user_id) after.seed_pairs ≡ (id, pair) ∷ [] =
      ap (select (is_active_of pair.user_id)) rows
      ∙ select-append_row (is_active_of pair.user_id) db.seed_pairs (id, pair)
          (select_none (is_active_of pair.user_id) db.seed_pairs free) active in
    (same, ap (λ x. (scalar_one_or_none x, after)) one)

-- A rotation that returned revealed the server seed of the pair that was active, with the hash that
-- had been published for it, and left the user one active pair: a new one with nonce 0, whose seed
-- hashes to the hash that the rotation returned.
pub rotate_seed_pairs :
    (w : World) (user_id : ℕ) (db after : Db) (view : RotateSeedView)
    → rotate_seed w user_id db ≡ (ok view, after)
    → (old : ℕ × SeedPair) × (new : ℕ × SeedPair) × (get_active_by_user_id user_id db
        ≡ (ok (some old), db))
      × (get_active_by_user_id user_id after ≡ (ok (some new), after))
      × (view.revealed_server_seed ≡ hex old.1.server_seed)
      × (view.revealed_server_seed_hash ≡ old.1.server_seed_hash)
      × (new.1.nonce ≡ 0)
      × (new.1.server_seed_hash ≡ w.sha256_hex new.1.server_seed)
      × (view.new_server_seed_hash ≡ new.1.server_seed_hash)
      × (view.new_client_seed ≡ new.1.client_seed)
unfolding rotate_seed create_active
rotate_seed_pairs w user_id db after view h = bind_returned _ _ _ _ _ h λ active db1 e1 h1.
    bind_returned _ _ _ _ _ h1 λ old db2 e2 h2. bind_returned _ _ _ _ _ h2 λ _ db3 e3 h3.
      bind_returned _ _ _ _ _ h3 λ seed db4 e4 h4. bind_returned _ _ _ _ _ h4 λ client db5 e5 h5.
        bind_returned _ _ _ _ _ h5 λ new db6 e6 h6. bind_returned _ _ _ _ _ e6 λ id db7 e7 h7.
          let only = insert_active_only _ id db7 db6 new (ground arith) h7 in
          let done = returned_eq h6 in
          let before = lift_returned (or_raise active data_integrity) old db1 db2 e2 in
          let found = or_raise-eq-ok active data_integrity old before.0 in
          let same = get_active_same user_id db db1 e1 in
          (
            old,
            new,
            e1 ∙ (λ i. (ok (found i), same i)),
            ap (get_active_by_user_id user_id) (sym done.1)
                ∙ only.1
                ∙ (λ i. (ok (some (sym only.0 i)), done.1 i)),
            ap (λ (v : RotateSeedView). v.revealed_server_seed) (sym done.0),
            ap (λ (v : RotateSeedView). v.revealed_server_seed_hash) (sym done.0),
            ap (λ (r : ℕ × SeedPair). r.1.nonce) only.0,
            rw only.0 refl,
            ap (λ (v : RotateSeedView). v.new_server_seed_hash) (sym done.0),
            ap (λ (v : RotateSeedView). v.new_client_seed) (sym done.0),
          )

-- A rotation that returned shows its new hash and client seed to whoever reads the current seed next,
-- with nonce 0.
pub rotate_seed-get_current_seed :
    (w : World) (user_id : ℕ) (db after : Db) (view : RotateSeedView)
    → rotate_seed w user_id db ≡ (ok view, after)
    → get_current_seed w user_id after ≡ (
      ok (record {
        server_seed_hash = view.new_server_seed_hash;
        client_seed = view.new_client_seed;
        nonce = 0;
      }),
      after,
    )
unfolding get_current_seed ◌>>=◌
rotate_seed-get_current_seed w user_id db after view h =
    let (_, new, _, active, _, _, fresh, _, hash, client) =
      rotate_seed_pairs w user_id db after view h in
    let shown : ℕ × SeedPair → CurrentSeedView = λ pair. record {
      server_seed_hash = pair.1.server_seed_hash;
      client_seed = pair.1.client_seed;
      nonce = pair.1.nonce;
    } in
    bind_step (get_active_by_user_id user_id)
      (λ found. lift (or_raise found data_integrity) >>= λ pair. pure (shown pair)) after after
      (some new) active
    ∙ (λ i. (
      ok (record { server_seed_hash = sym hash i; client_seed = sym client i; nonce = fresh i }),
      after,
    ))
