-- ===== src/Repositories/Users.antt =====
-- app/repositories/users.py, and the unique CITEXT column `email` of app/models/user.py.
use text.Mathlib.Text.{◌==◌ as str_eq}
use theclub_api.Prelude.{
  ℕ, String, ◌≡◌, refl, ap, sym, subst, arith, ◌==◌, Bool, true, Bool-cases, inl, inr, Option, some,
  any, if◌then◌else◌,
}
use theclub_api.Result.{Result, ok, err, integrity_error}
use theclub_api.Exec.{Exec, gets, ok_injective, ◌>>=◌}
use theclub_api.Rows.{Table, find_id, insert_row, find_id-insert_row, select, scalar_one_or_none}
use theclub_api.Db.{Db, User, UserStatus}
use theclub_api.World.{World, new_uuid, tick}

abbrev pub has_email : World → String → User → Bool
has_email w email user = str_eq (w.lower user.email) (w.lower email)

-- `UserRepository.get_by_id`
unfoldable pub get_by_id : ℕ → Exec Db (Option User)
get_by_id user_id db = (ok (find_id user_id db.users), db)

-- `UserRepository.get_by_email`
unfoldable pub get_by_email : World → String → Exec Db (Option (ℕ × User))
get_by_email w email db = (scalar_one_or_none (select (has_email w email) db.users), db)

abbrev put_user : User → ℕ → Result (Table User) → Exec Db (ℕ × User)
put_user user id (ok rows) db = (ok (id, user), record db { users = rows })
put_user user id (err e) db = (err e, db)

unfoldable pub insert_user : World → User → ℕ → Exec Db (ℕ × User)
insert_user w user id db =
    if any (λ row. has_email w user.email row.1) db.users
    then (err integrity_error, db)
    else put_user user id (insert_row id user db.users) db

-- `UserRepository.create`
unfoldable pub create : World → String → String → Exec Db (ℕ × User)
create w email password_hash = do
  id ← new_uuid w
  started ← gets (λ db. db.started)
  insert_user w
      (record {
        email = email;
        password_hash = password_hash;
        status = UserStatus.active;
        created_at = started;
      })
      id

put_user-eq-ok :
    (user : User) (id : ℕ) (db after : Db) (row : ℕ × User)
    → put_user user id (insert_row id user db.users) db ≡ (ok row, after)
    → (row ≡ (id, user)) × (find_id id after.users ≡ some user)
put_user-eq-ok user id db after row h = go (insert_row id user db.users) refl h
  where
    go :
        (r : Result (Table User))
        → insert_row id user db.users ≡ r
        → put_user user id r db ≡ (ok row, after)
        → (row ≡ (id, user)) × (find_id id after.users ≡ some user)
    go (ok rows) e k =
        let self : (id == id) ≡ true = ground arith in
        let found = (find_id-insert_row id id user db.users rows e).1 in
        let same : rows ≡ after.users = ap (λ r. r.1.users) k in
        (
          sym (ok_injective (ap (λ r. r.0) k)),
          subst (λ (t : Table User). find_id id t ≡ some user) same (rw self at found),
        )
    go (err e) r k =
        let bad : ◌≡◌ {A = Result (ℕ × User)} (err e) (ok row) = ap (λ r. r.0) k in absurd (cc bad)

-- A creation that returned added an active user with this address, who is found by the id.
pub create-eq-ok :
    (w : World) (email password_hash : String) (db after : Db) (user : ℕ × User)
    → create w email password_hash db ≡ (ok user, after)
    → (user.1.email ≡ email)
      × (user.1.status ≡ UserStatus.active)
      × (find_id user.0 after.users ≡ some user.1)
unfolding create insert_user ◌>>=◌
create-eq-ok w email password_hash db after user h =
    let new : User = record {
      email = email;
      password_hash = password_hash;
      status = UserStatus.active;
      created_at = db.started;
    } in
    elim (Bool-cases (any (λ row. has_email w email row.1) db.users)) [
      | inl taken ↦
          let bad : ◌≡◌ {A = Result (ℕ × User)} (err integrity_error) (ok user) =
            ap (λ r. r.0) (rw taken at h) in
          absurd (cc bad)
      | inr free ↦
          let (same, found) =
            put_user-eq-ok new (w.uuid4 db.calls) (tick db) after user (rw free at h) in
          rw same (refl, refl, found)
    ]
