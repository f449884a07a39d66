-- ===== src/Services/Fairness/Returns.antt =====
-- When a rotation of a user's seeds returns.
use theclub_api.Prelude.{ℕ, ◌≡◌, refl, ap, ◌∙◌, suc, false, some, none, [], ◌∷◌, ◌++◌, arith, any}
use theclub_api.Result.{ok}
use theclub_api.Exec.{lift, bind_step, ◌>>=◌}
use theclub_api.Rows.{
  IsKeyed, find_id, set_id, find_id-set_id, find_id-select, select, any-set_id,
  scalar_one_or_none-eq-some, insert_row-fresh,
}
use theclub_api.Db.{Db, SeedPair, SeedStatus}
use theclub_api.World.{World, new_secret, new_uuid}
use theclub_api.Repositories.SeedPairs.{
  is_active_of, put_pairs, get_active_by_user_id, reveal_and_deactivate, insert_active,
  create_active,
}
use theclub_api.Services.Wallet.Returns.{IsUnused}
use theclub_api.Services.Fairness.{RotateSeedView, get_current_seed, rotate_seed}
use theclub_api.Services.Fairness.Rotation.{rotate_seed-get_current_seed}

-- The pair after it was revealed at a time.
abbrev revealed : ℕ → SeedPair → SeedPair
revealed now pair = record pair { status = SeedStatus.revealed; revealed_at = some now }

reveal-Returns :
    (w : World) (id : ℕ) (pair : SeedPair) (db : Db)
    → find_id id db.seed_pairs ≡ some pair
    → reveal_and_deactivate w id db ≡ (
      ok tt,
      record db {
        calls = suc db.calls;
        seed_pairs = set_id id (revealed (w.now db.calls) pair) db.seed_pairs;
      },
    )
unfolding reveal_and_deactivate ◌>>=◌
reveal-Returns w id pair db found = rw found refl

insert_active-Returns :
    (pair : SeedPair) (id : ℕ) (db : Db)
    → any (λ row. is_active_of pair.user_id row.1) db.seed_pairs ≡ false
    → find_id id db.seed_pairs ≡ none
    → insert_active pair id db
      ≡ (ok (id, pair), record db { seed_pairs = db.seed_pairs ++ (id, pair) ∷ [] })
unfolding insert_active
insert_active-Returns pair id db free fresh =
    rw free (ap (λ t. put_pairs pair id t db) (insert_row-fresh id pair db.seed_pairs fresh))

inactive : (user_id now : ℕ) (pair : SeedPair) → is_active_of user_id (revealed now pair) ≡ false
inactive user_id now pair = ground arith

module _ (w : World) (user_id : ℕ) (db : Db) (old : ℕ × SeedPair) where
  rotated :
      IsKeyed db.seed_pairs
      → get_active_by_user_id user_id db ≡ (ok (some old), db)
      → IsUnused w db.calls db.seed_pairs
      → (view : RotateSeedView) × (after : Db) × (rotate_seed w user_id db ≡ (ok view, after))
  unfolding rotate_seed get_active_by_user_id create_active
  rotated keyed active unused =
      let p_of = is_active_of user_id in
      let now = w.now db.calls in
      let one : select p_of db.seed_pairs ≡ old ∷ [] =
        scalar_one_or_none-eq-some _ old (ap (λ x. x.0) active) in
      let found : find_id old.0 db.seed_pairs ≡ some old.1 =
        find_id-select p_of old.0 old.1 db.seed_pairs keyed one in
      let pairs = set_id old.0 (revealed now old.1) db.seed_pairs in
      let free : any (λ row. p_of row.1) pairs ≡ false =
        any-set_id p_of old.0 old.1 (revealed now old.1) db.seed_pairs keyed one
          (inactive user_id now old.1) in
      let id = w.uuid4 (suc (suc (suc db.calls))) in
      let new_id : find_id id db.seed_pairs ≡ none = unused _ (omega arith) in
      let fresh : find_id id pairs ≡ none =
        ground (arith, found, new_id, find_id-set_id id old.0 (revealed now old.1) db.seed_pairs) in
      let seed = w.token_bytes (suc db.calls) in
      let new : SeedPair = record {
        user_id = user_id;
        server_seed = seed;
        server_seed_hash = w.sha256_hex seed;
        client_seed = w.token_bytes (suc (suc db.calls));
        nonce = 0;
        status = SeedStatus.active;
        revealed_at = none;
      } in
      let four : Db = record db { calls = suc (suc (suc (suc db.calls))); seed_pairs = pairs } in
      (
        _,
        _,
        bind_step _ _ _ _ _ active
            ∙ bind_step (lift (ok old)) _ _ _ _ refl
            ∙ bind_step _ _ _ _ _ (reveal-Returns w old.0 old.1 db found)
            ∙ bind_step (new_secret w) _ _ _ _ refl
            ∙ bind_step (new_secret w) _ _ _ _ refl
            ∙ bind_step (create_active w user_id seed _ _) _ _ _ _ (
                bind_step (new_uuid w) _ _ _ _ refl ∙ insert_active-Returns new id four free fresh),
      )

  -- Let no two seed pairs have one key, and let no id that `uuid4` is still to give be in use among
  -- them. Then a rotation returns, for a user who has an active pair, and whoever reads the current
  -- seed next is shown the hash and the client seed that the rotation returned, with nonce 0.
  pub rotate_seed-Returns :
      IsKeyed db.seed_pairs
      → get_active_by_user_id user_id db ≡ (ok (some old), db)
      → IsUnused w db.calls db.seed_pairs
      → (view : RotateSeedView) × (after : Db) × (rotate_seed w user_id db ≡ (ok view, after))
        × (get_current_seed w user_id after ≡ (
          ok (record {
            server_seed_hash = view.new_server_seed_hash;
            client_seed = view.new_client_seed;
            nonce = 0;
          }),
          after,
        ))
  rotate_seed-Returns keyed active unused =
      let (view, after, done) = rotated keyed active unused in
      (view, after, done, rotate_seed-get_current_seed w user_id db after view done)
