-- ===== src/Api/Auth/Logout.antt =====
-- What is left of a session after POST /auth/logout.
use theclub_api.Prelude.{
  if◌then◌else◌, ℕ, ◌≡◌, refl, sym, ap, subst, ◌∙◌, arith, String, Bool, true, false, ◌==◌, All,
  Option, some, [], ◌∷◌, Option-cases, inl, inr,
}
use theclub_api.Result.{ok, err, refresh_reused}
use theclub_api.Exec.{◌>>=◌}
use theclub_api.Domain.Fairness.{Bytes}
use theclub_api.Rows.{Table, update_where, select, scalar_one_or_none, scalar_one_or_none-eq-some}
use theclub_api.Config.{Settings}
use theclub_api.Db.{Db, User, RefreshToken}
use theclub_api.World.{World}
use theclub_api.World.Transactions.{begun}
use theclub_api.Security.{hash_refresh_token}
use theclub_api.Repositories.RefreshTokens.{
  get_by_hash, has_hash, is_live_of, revoked, revoke_family,
}
use theclub_api.Services.Auth.{refresh_access_token, rotate, logout}
use theclub_api.Services.Auth.Refresh.{IsEnded, ended_rows}
use theclub_api.Api.Deps.{get_current_user}
use theclub_api.Api.Auth.{get_session, refresh_route, logout_route}

select-update_where :
    (p live : RefreshToken → Bool) (f : RefreshToken → RefreshToken) (rows : Table RefreshToken)
    → ((r : RefreshToken) → p (f r) ≡ p r)
    → select p (update_where live f rows) ≡ update_where live f (select p rows)
unfolding update_where
select-update_where p live f [] h = refl
select-update_where p live f ((id, r) ∷ rows) h =
    ground (arith, h r, select-update_where p live f rows h)

-- A row of a family that is revoked with all its family.
ended_row :
    (family_id now : ℕ) (row : RefreshToken)
    → row.family_id ≡ family_id
    → (at : ℕ) × ((if is_live_of family_id row then revoked now row else row).revoked_at ≡ some at)
ended_row family_id now row same = elim (Option-cases row.revoked_at) [
  | inl live ↦
      let yes_live : is_live_of family_id row ≡ true = ground arith in (now, rw yes_live refl)
  | inr (at, spent) ↦
      let ended : is_live_of family_id row ≡ false = ground arith in (at, rw ended spent)
]

module _ (w : World) (settings : Settings) (raw : Bytes) (stored : ℕ × RefreshToken) where
  refused :
      (db : Db) (revoked_at : ℕ)
      → get_by_hash (hash_refresh_token w raw) db ≡ (ok (some stored), db)
      → stored.1.revoked_at ≡ some revoked_at
      → (refresh_route w settings raw db).0 ≡ err refresh_reused
  unfolding refresh_route get_session refresh_access_token rotate revoke_family get_by_hash ◌>>=◌
  refused db at found spent =
      let row : scalar_one_or_none (select (has_hash (hash_refresh_token w raw)) db.refresh_tokens)
          ≡ ok (some stored) =
        ap (λ r. r.0) found in
      rw (row, spent) refl

module _ (w : World) (settings : Settings) (header : Option String) (raw : Bytes) (id : ℕ)
    (user : User) (stored : ℕ × RefreshToken) (db after : Db)
    (signed_in : get_current_user w settings header (begun w db) ≡ (ok (id, user), begun w db))
    (found : get_by_hash (hash_refresh_token w raw) db ≡ (ok (some stored), db))
    (done : logout_route w settings header raw db ≡ (ok tt, after)) where
  logged_out :
      (own : Bool)
      → (stored.1.user_id == id) ≡ own
      → after.refresh_tokens ≡ (
          if own
          then update_where
              (is_live_of stored.1.family_id)
              (revoked (w.now (begun w db).calls))
              db.refresh_tokens
          else db.refresh_tokens)
  unfolding logout_route logout get_session get_by_hash revoke_family ◌>>=◌
  logged_out true e =
      let row : scalar_one_or_none (select (has_hash (hash_refresh_token w raw)) db.refresh_tokens)
          ≡ ok (some stored) =
        ap (λ r. r.0) found in
      ap (λ r. r.1.refresh_tokens) (sym (rw (signed_in, row, e) at done))
  logged_out false e =
      let row : scalar_one_or_none (select (has_hash (hash_refresh_token w raw)) db.refresh_tokens)
          ≡ ok (some stored) =
        ap (λ r. r.0) found in
      ap (λ r. r.1.refresh_tokens) (sym (rw (signed_in, row, e) at done))

  -- A logout ends the session of the refresh token that it is given, if it is the user's own: no token of
  -- its family is live afterwards, and POST /auth/refresh refuses the token with
  -- RefreshTokenReusedError.
  pub logout_route-ends :
      (stored.1.user_id == id) ≡ true
      → IsEnded stored.1.family_id after
        × ((refresh_route w settings raw after).0 ≡ err refresh_reused)
  unfolding get_by_hash update_where
  logout_route-ends own =
      let now = w.now (begun w db).calls in
      let rows = logged_out true own in
      let family = stored.1.family_id in
      let hash = hash_refresh_token w raw in
      let selected = scalar_one_or_none-eq-some _ stored (ap (λ r. r.0) found) in
      let (at, spent) = ended_row family now stored.1 refl in
      let row : ℕ × RefreshToken =
        (stored.0, if is_live_of family stored.1 then revoked now stored.1 else stored.1) in
      let again : get_by_hash hash after ≡ (ok (some row), after) =
        ap (λ t. (scalar_one_or_none (select (has_hash hash) t), after)) rows
        ∙ ap (λ t. (scalar_one_or_none t, after))
            (select-update_where (has_hash hash) (is_live_of family) (revoked now) db.refresh_tokens
                (λ r. refl)
              ∙ ap (update_where (is_live_of family) (revoked now)) selected) in
      (
        subst (λ t. All (λ r. is_live_of family r.1 ≡ false) t) (sym rows)
            (ended_rows family now db.refresh_tokens),
        refused w settings raw row after at again spent,
      )

  -- A logout with the refresh token of another user leaves every refresh token as it was.
  pub logout_route-other :
      (stored.1.user_id == id) ≡ false → after.refresh_tokens ≡ db.refresh_tokens
  logout_route-other other = logged_out false other
