-- ===== src/Api/Ws/SameUsers.antt =====
-- The websocket endpoint lets in whom the HTTP routes let in.
use text.Mathlib.Text.{◌==◌ as str_eq}
use text.Mathlib.TextPositions.{starts_with-append, slice-append_right, len-append}
use Prim.Native.String.{slice, len, ◌++◌ as append_str}
use theclub_api.Prelude.{
  ℕ, String, ◌≡◌, ◌↔◌, refl, sym, ap, ◌∙◌, false, Option, none, some, Bool-cases, inl, inr,
}
use theclub_api.Result.{Error, Result, ok, err, invalid_token, user_suspended, or_raise, raise_if}
use theclub_api.Exec.{Exec, lift, pure, ◌>>=◌, ◌>>◌}
use theclub_api.Rows.{find_id}
use theclub_api.Db.{Db, User, UserStatus}
use theclub_api.Config.{Settings}
use theclub_api.World.{World}
use theclub_api.Security.{decode_access_token}
use theclub_api.Repositories.Users.{get_by_id}
use theclub_api.Services.Auth.{is_suspended}
use theclub_api.Api.Deps.{bearer, get_current_user}
use theclub_api.Api.Ws.{is_token_error, identify, authenticate}

pub bearer-token : (token : String) → bearer (some (append_str "Bearer " token)) ≡ ok token
unfolding bearer
bearer-token token = rw (starts_with-append "Bearer " token) (
    ap ok (
      ap (slice (append_str "Bearer " token) (len "Bearer ")) (len-append "Bearer " token)
      ∙ slice-append_right "Bearer " token))

-- What both do with the decoded token.
abbrev load : Result ℕ → Exec Db (ℕ × User)
load decoded = do
  user_id ← lift decoded
  found ← get_by_id user_id
  user ← lift (or_raise found invalid_token)
  lift (raise_if (is_suspended user.status) user_suspended)
  pure (user_id, user)

load_ok :
    (user_id id : ℕ) (found : Option User) (db : Db)
    → find_id user_id db.users ≡ found
    → (identify (ok user_id) db ≡ (ok (some id), db))
      ↔ ((user : User) × (load (ok user_id) db ≡ (ok (id, user), db)))
unfolding identify get_by_id ◌>>=◌
load_ok user_id id none db e = rw e (
  λ h. let bad : ok none ≡ ok (some id) = ap (λ r. r.0) h in absurd (cc bad),
  λ (user, h). let bad : err invalid_token ≡ ok (id, user) = ap (λ r. r.0) h in absurd (cc bad),
)
load_ok user_id id (some user) db e = elim (Bool-cases (is_suspended user.status)) [
  | inl suspended ↦
      rw (e, suspended)
        (
          λ h. let bad : ok none ≡ ok (some id) = ap (λ r. r.0) h in absurd (cc bad),
          λ (other, h).
              let bad : err user_suspended ≡ ok (id, other) = ap (λ r. r.0) h in absurd (cc bad),
        )
  | inr active ↦
      rw (e, active)
        (
          λ h.
              let same : ok (some user_id) ≡ ok (some id) = ap (λ r. r.0) h in
              let equal : user_id ≡ id = cc same in (user, λ i. (ok (equal i, user), db)),
          λ (other, h).
              let same : ok (user_id, user) ≡ ok (id, other) = ap (λ r. r.0) h in
              let equal : user_id ≡ id = cc same in λ i. (ok (some (equal i)), db),
        )
]

load_err :
    (x : Error) (id : ℕ) (db : Db)
    → (identify (err x) db ≡ (ok (some id), db))
      ↔ ((user : User) × (load (err x) db ≡ (ok (id, user), db)))
unfolding identify ◌>>=◌
load_err x id db = (
  λ h. elim (Bool-cases (is_token_error x)) [
    | inl token ↦
        let bad : ok none ≡ ok (some id) = ap (λ r. r.0) (rw token at h) in absurd (cc bad)
    | inr other ↦ let bad : err x ≡ ok (some id) = ap (λ r. r.0) (rw other at h) in absurd (cc bad)
  ],
  λ (user, h). let bad : err x ≡ ok (id, user) = ap (λ r. r.0) h in absurd (cc bad),
)

load_iff :
    (decoded : Result ℕ) (id : ℕ) (db : Db)
    → (identify decoded db ≡ (ok (some id), db))
      ↔ ((user : User) × (load decoded db ≡ (ok (id, user), db)))
load_iff (ok user_id) id db = load_ok user_id id (find_id user_id db.users) db refl
load_iff (err x) id db = load_err x id db

active_status : (status : UserStatus) → is_suspended status ≡ false → status ≡ UserStatus.active
active_status UserStatus.active h = refl
active_status UserStatus.suspended h = absurd (cc h)

-- The user whom a token admits: it decodes to the user's id, and the user is there and is active.
pub record IsAdmitted (decoded : Result ℕ) (id : ℕ) (user : User) (db : Db) : Type 0 where
  pub is_decoded : decoded ≡ ok id
  pub found : find_id id db.users ≡ some user
  pub is_active : user.status ≡ UserStatus.active

loaded :
    (user_id id : ℕ) (found : Option User) (user : User) (db : Db)
    → find_id user_id db.users ≡ found
    → load (ok user_id) db ≡ (ok (id, user), db)
    → IsAdmitted (ok user_id) id user db
unfolding get_by_id ◌>>=◌
loaded user_id id none user db e h =
    let bad : err invalid_token ≡ ok (id, user) = ap (λ r. r.0) (rw e at h) in absurd (cc bad)
loaded user_id id (some held) user db e h = elim (Bool-cases (is_suspended held.status)) [
  | inl suspended ↦
      let bad : err user_suspended ≡ ok (id, user) = ap (λ r. r.0) (rw (e, suspended) at h) in
      absurd (cc bad)
  | inr active ↦
      let same : ok (user_id, held) ≡ ok (id, user) = ap (λ r. r.0) (rw (e, active) at h) in
      let same_id : user_id ≡ id = cc same in
      let same_user : held ≡ user = cc same in
      record {
        is_decoded = ap ok same_id;
        found = ap (λ k. find_id k db.users) (sym same_id) ∙ e ∙ ap some same_user;
        is_active = ap (λ (u : User). u.status) (sym same_user) ∙ active_status held.status active;
      }
]

load-IsAdmitted :
    (decoded : Result ℕ) (id : ℕ) (user : User) (db : Db)
    → load decoded db ≡ (ok (id, user), db)
    → IsAdmitted decoded id user db
unfolding ◌>>=◌
load-IsAdmitted (ok user_id) id user db h =
    loaded user_id id (find_id user_id db.users) user db refl h
load-IsAdmitted (err x) id user db h =
    let bad : err x ≡ ok (id, user) = ap (λ r. r.0) h in absurd (cc bad)

-- A token that is not empty opens a websocket for a user just where it decodes to the id of a user
-- who is there and is active, and where the header `Bearer` with the same token is accepted by the
-- HTTP routes for that user.
pub authenticate_iff :
    (w : World) (settings : Settings) (token : String) (id : ℕ) (db : Db)
    → str_eq token "" ≡ false
    → (authenticate w settings (some token) db ≡ (ok (some id), db)) ↔ (
        (user : User) × IsAdmitted
          (decode_access_token w
            (w.now db.calls)
            token
            settings.jwt_secret
            settings.jwt_algorithm
            settings.jwt_previous_secrets)
          id
          user
          db
        × (get_current_user w settings (some (append_str "Bearer " token)) db
            ≡ (ok (id, user), db)))
unfolding authenticate get_current_user ◌>>=◌
authenticate_iff w settings token id db given =
    let decoded =
      decode_access_token w (w.now db.calls) token settings.jwt_secret settings.jwt_algorithm
        settings.jwt_previous_secrets in
    let same = load_iff decoded id db in
    rw (given, bearer-token token)
      (
        λ h. let (user, run) = same.0 h in (user, load-IsAdmitted decoded id user db run, run),
        λ (user, _, run). same.1 (user, run),
      )
