-- ===== src/Services/Idempotency/Reserved.antt =====
-- What the reservation of a key does to the table of keys.
use theclub_api.Prelude.{
  ℕ, suc, ◌≡◌, refl, sym, ◌∙◌, Bool, true, false, Bool-cases, Option-cases, none, some, [], ◌∷◌,
  ◌++◌, any, inl, inr, ◌+◌, ◌*◌,
}
use theclub_api.Result.{ok}
use theclub_api.Exec.{◌>>=◌}
use theclub_api.World.Transactions.{in_transaction}
use theclub_api.Rows.{find_id, insert_row-fresh, insert_row-clash, select, select_none}
use theclub_api.Db.{Db, IdempotencyKey}
use theclub_api.World.{World}
use theclub_api.Repositories.Outbox.{seconds}
use theclub_api.Repositories.IdempotencyKeys.{is_key, create_pending, insert_key, pending_row}
use theclub_api.Services.Idempotency.{Request, reserve, try_reserve}

-- A row of the key is there.
abbrev pub is_taken : Request → Db → Bool
is_taken request db = any (λ r. is_key request.user_id request.key r.1) db.idempotency_keys

-- The row that a reservation at `db` adds, and its id.
abbrev pub new_row : World → Request → Db → IdempotencyKey
new_row w request db =
    pending_row request.user_id request.key request.request_hash
      (w.now (suc db.calls) + seconds (request.ttl_hours * 3600)) (w.server_now db.calls)

abbrev pub new_id : World → Db → ℕ
new_id w db = w.uuid4 (suc (suc db.calls))

abbrev pub after_calls : Db → Db
after_calls db = record db { calls = suc (suc (suc db.calls)) }

abbrev pub with_row : World → Request → Db → Db
with_row w request db = record db {
  idempotency_keys = db.idempotency_keys ++ (new_id w db, new_row w request db) ∷ [];
  started = w.server_now db.calls;
  calls = suc (suc (suc db.calls));
}

module _ (w : World) (request : Request) (db : Db) where
  pub try_reserve-taken :
      is_taken request db ≡ true → try_reserve w request db ≡ (ok none, after_calls db)
  unfolding try_reserve in_transaction reserve create_pending insert_key ◌>>=◌
  try_reserve-taken taken = rw taken refl

  pub try_reserve-clash :
      (row : IdempotencyKey)
      → is_taken request db ≡ false
      → find_id (new_id w db) db.idempotency_keys ≡ some row
      → try_reserve w request db ≡ (ok none, after_calls db)
  unfolding try_reserve in_transaction reserve create_pending insert_key ◌>>=◌
  try_reserve-clash row free clash =
      rw (free, insert_row-clash (new_id w db) (new_row w request db) row db.idempotency_keys clash)
        refl

  pub try_reserve-free :
      is_taken request db ≡ false
      → find_id (new_id w db) db.idempotency_keys ≡ none
      → try_reserve w request db ≡ (ok (some (new_id w db)), with_row w request db)
  unfolding try_reserve in_transaction reserve create_pending insert_key ◌>>=◌
  try_reserve-free free fresh =
      rw (free, insert_row-fresh (new_id w db) (new_row w request db) db.idempotency_keys fresh)
        refl

-- What an attempt to reserve has done: it added the row of a key that had none, or it changed nothing.
pub data Attempt (w : World) (request : Request) (db : Db) : Type 0 where
  won :
      is_taken request db ≡ false
      → find_id (new_id w db) db.idempotency_keys ≡ none
      → try_reserve w request db ≡ (ok (some (new_id w db)), with_row w request db)
      → Attempt w request db
  lost : try_reserve w request db ≡ (ok none, after_calls db) → Attempt w request db

pub attempt : (w : World) (request : Request) (db : Db) → Attempt w request db
attempt w request db = elim (Bool-cases (is_taken request db)) [
  | inl taken ↦ lost (try_reserve-taken w request db taken)
  | inr free ↦ elim (Option-cases (find_id (new_id w db) db.idempotency_keys)) [
    | inl fresh ↦ won free fresh (try_reserve-free w request db free fresh)
    | inr (row, clash) ↦ lost (try_reserve-clash w request db row free clash)
  ]
]

-- A key that a selection finds is taken.
pub is_taken-select :
    (request : Request) (db : Db) (r : ℕ × IdempotencyKey)
    → select (is_key request.user_id request.key) db.idempotency_keys ≡ r ∷ []
    → is_taken request db ≡ true
is_taken-select request db r h = elim (Bool-cases (is_taken request db)) [
  | inl taken ↦ taken
  | inr free ↦
      let bad : [] ≡ r ∷ [] =
        sym (select_none (is_key request.user_id request.key) db.idempotency_keys free) ∙ h in
      absurd (cc bad)
]
