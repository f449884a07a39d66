-- ===== src/Services/Auth/Refresh.antt =====
-- What a refresh does to the refresh tokens of a family, the first time and after that.
use theclub_api.Prelude.{
  ℕ, ◌≡◌, refl, sym, ap, subst, ◌∙◌, arith, Bool, true, false, ◌++◌, All, any, Option, none, some,
  [], ◌∷◌, ltb, Bool-cases, inl, inr,
}
use theclub_api.Result.{
  Result, ok, err, or_raise, or_raise-eq-ok, invalid_token, refresh_reused, token_expired,
}
use theclub_api.Exec.{◌>>=◌, lift, bind_returned, lift_returned}
use theclub_api.Exec.Session.{Session, unit_of_work, within_returned, unit_of_work_returned}
use theclub_api.Domain.Fairness.{Bytes}
use theclub_api.Rows.{
  Table, select-update_id, select-skip_row, select-append_row, select_none,
  scalar_one_or_none-eq-some, update_id_own, update_id, update_where, select, scalar_one_or_none,
}
use theclub_api.Config.{Settings}
use theclub_api.Db.{Db, RefreshToken}
use theclub_api.World.{World}
use theclub_api.Services.Auth.Issued.{Issued, issue_tokens-Issued}
use theclub_api.Repositories.RefreshTokens.{
  eq_bytes, eq_bytes-eq, eq_bytes_sym, eq_bytes_refl, get_by_hash, has_hash, is_live_of, revoked,
  revoke, revoke_family,
}
use theclub_api.Security.{hash_refresh_token}
use theclub_api.Services.Auth.{TokenPair, refresh_access_token, rotate, issue_tokens}

-- No row of a family is live.
abbrev pub IsEnded : ℕ → Db → Type 0
IsEnded family_id db = All (λ row. is_live_of family_id row.1 ≡ false) db.refresh_tokens

pub ended_rows :
    (family_id now : ℕ) (rows : Table RefreshToken)
    → All
        (λ row. is_live_of family_id row.1 ≡ false)
        (update_where (is_live_of family_id) (revoked now) rows)
unfolding update_where
ended_rows family_id now [] = tt
ended_rows family_id now ((id, row) ∷ rows) = elim (Bool-cases (is_live_of family_id row)) [
  | inl live ↦ rw live (ground arith, ended_rows family_id now rows)
  | inr ended ↦ rw ended (ended, ended_rows family_id now rows)
]

module _ (w : World) (settings : Settings) (raw : Bytes) (stored : ℕ × RefreshToken) where
  -- A refresh token that was already used, or whose session has ended, is refused with
  -- RefreshTokenReusedError, and when the request is over every refresh token of its family is revoked:
  -- the commit outlives the exception.
  pub refresh_reuse :
      (db : Db) (revoked_at : ℕ)
      → get_by_hash (hash_refresh_token w raw) db ≡ (ok (some stored), db)
      → stored.1.revoked_at ≡ some revoked_at
      → ((unit_of_work (refresh_access_token w settings raw) db).0 ≡ err refresh_reused)
        × IsEnded stored.1.family_id (unit_of_work (refresh_access_token w settings raw) db).1
  unfolding refresh_access_token rotate unit_of_work revoke_family ◌>>=◌
  refresh_reuse db revoked_at found spent =
      rw (found, spent) (refl, ended_rows stored.1.family_id _ db.refresh_tokens)

abbrev head_or : ℕ × RefreshToken → Table RefreshToken → ℕ × RefreshToken
head_or d [] = d
head_or d (x ∷ xs) = x

-- The one row that a test selects passes it, and fails a test that no row passes.
selected_passes :
    (p q : RefreshToken → Bool) (rows : Table RefreshToken) (r : ℕ × RefreshToken)
    → select p rows ≡ r ∷ []
    → any (λ row. q row.1) rows ≡ false
    → (p r.1 ≡ true) × (q r.1 ≡ false)
selected_passes p q [] r h none_q = absurd (cc)
selected_passes p q (o ∷ rows) r h none_q = elim (Bool-cases (p o.1)) [
  | inl here ↦ let e : o ≡ r = ap (head_or o) (rw here at h) in rw (← e) (here, ground arith)
  | inr other ↦ selected_passes p q rows r (rw other at h) (ground arith)
]

module _ (w : World) (settings : Settings) where
  -- What a refresh that returned has done.
  pub record Refreshed (raw : Bytes) (db after : Db) (pair : TokenPair) : Type 0 where
    pub stored : ℕ × RefreshToken
    pub now : ℕ
    pub found : get_by_hash (hash_refresh_token w raw) db ≡ (ok (some stored), db)
    pub unspent : stored.1.revoked_at ≡ none
    pub unexpired : ltb stored.1.expires_at now ≡ false
    pub new : ℕ × RefreshToken
    pub fresh :
        any
          (λ r. has_hash new.1.token_hash r.1)
          (update_id stored.0 (revoked now) db.refresh_tokens)
        ≡ false
    pub rows : after.refresh_tokens ≡ update_id stored.0 (revoked now) db.refresh_tokens ++ new ∷ []
    pub token_hash : new.1.token_hash ≡ hash_refresh_token w pair.refresh_token
    pub of_user : new.1.user_id ≡ stored.1.user_id
    pub of_family : new.1.family_id ≡ stored.1.family_id
    pub live : new.1.revoked_at ≡ none

  -- the branch of a token that is not revoked
  rotate_returned :
      (stored : ℕ × RefreshToken) (now : ℕ) (revoked_at : Option ℕ) (s t : Session Db)
      (pair : TokenPair)
      → rotate w settings stored now revoked_at s ≡ (ok pair, t)
      → (revoked_at ≡ none)
        × (ltb stored.1.expires_at now ≡ false)
        × (db : Db) × (db.refresh_tokens
            ≡ update_id stored.0 (revoked now) s.current.refresh_tokens)
        × Issued w settings stored.1.user_id stored.1.family_id db t.current pair
  unfolding rotate revoke revoke_family ◌>>=◌
  rotate_returned stored now (some at) s t pair h =
      let bad : err refresh_reused ≡ ok pair = ap (λ x. x.0) h in absurd (cc bad)
  rotate_returned stored now none s t pair h = elim (Bool-cases (ltb stored.1.expires_at now)) [
    | inl late ↦
        let bad : err token_expired ≡ ok pair = ap (λ x. x.0) (rw late at h) in absurd (cc bad)
    | inr early ↦ (
      refl,
      early,
      _,
      refl,
      issue_tokens-Issued w settings stored.1.user_id stored.1.family_id _ t.current pair (
          within_returned (issue_tokens w settings stored.1.user_id stored.1.family_id) _ t pair
            (rw early at h)),
    )
  ]

  get_by_hash_same :
      (hash : Bytes) (db after : Db) (o : Option (ℕ × RefreshToken))
      → get_by_hash hash db ≡ (ok o, after)
      → after ≡ db
  unfolding get_by_hash
  get_by_hash_same hash db after o h = ap (λ x. x.1) (sym h)

  -- A refresh that returned found the row of the presented token, neither revoked nor expired; it
  -- revoked that row and added one, live, of the same user and family, that has the hash of the
  -- refresh token that it returned.
  pub refresh-Refreshed :
      (raw : Bytes) (db after : Db) (pair : TokenPair)
      → unit_of_work (refresh_access_token w settings raw) db ≡ (ok pair, after)
      → Refreshed raw db after pair
  unfolding refresh_access_token
  refresh-Refreshed raw db after pair h =
      let (u, run, seen) = unit_of_work_returned _ db after pair h in
      bind_returned _ _ _ _ _ run λ found s1 e1 h1. bind_returned _ _ _ _ _ h1 λ stored s2 e2 h2.
        bind_returned _ _ _ _ _ h2 λ now s3 e3 h3.
          let lookup = within_returned (get_by_hash (hash_refresh_token w raw)) _ s1 found e1 in
          let same1 = get_by_hash_same (hash_refresh_token w raw) db s1.current found lookup in
          let raised =
            lift_returned (or_raise found invalid_token) stored s1.current s2.current
              (within_returned (lift (or_raise found invalid_token)) s1 s2 stored e2) in
          let is_found = or_raise-eq-ok found invalid_token stored raised.0 in
          let ticked : s3.current.refresh_tokens ≡ db.refresh_tokens =
            ap (λ (x : Result ℕ × Session Db). x.1.current.refresh_tokens) (sym e3)
            ∙ ap (λ (d : Db). d.refresh_tokens) (raised.1 ∙ same1) in
          let (unspent, unexpired, mid, revoked_rows, issued) =
            rotate_returned stored now stored.1.revoked_at s3 u pair h3 in
          let mid_rows = revoked_rows ∙ ap (update_id stored.0 (revoked now)) ticked in
          record {
            stored = stored;
            now = now;
            found = lookup ∙ (λ i. (ok (is_found i), same1 i));
            unspent = unspent;
            unexpired = unexpired;
            new = issued.new;
            fresh =
                ap (any (λ r. has_hash issued.new.1.token_hash r.1)) (sym mid_rows) ∙ issued.fresh;
            rows =
                ap (λ (d : Db). d.refresh_tokens) (sym seen)
                ∙ issued.rows
                ∙ ap (λ rows. rows ++ issued.new ∷ []) mid_rows;
            token_hash = issued.token_hash;
            of_user = issued.user_id_eq;
            of_family = issued.family_id_eq;
            live = issued.live;
          }

  -- A refresh token works once: presented again after a refresh that returned, it is refused with
  -- RefreshTokenReusedError, and then no refresh token is live of the family of the one that the first
  -- refresh returned.
  pub refresh_twice :
      (raw : Bytes) (db after : Db) (pair : TokenPair)
      → unit_of_work (refresh_access_token w settings raw) db ≡ (ok pair, after)
      → (new : ℕ × RefreshToken) × (get_by_hash (hash_refresh_token w pair.refresh_token) after
          ≡ (ok (some new), after))
        × ((unit_of_work (refresh_access_token w settings raw) after).0 ≡ err refresh_reused)
        × IsEnded new.1.family_id (unit_of_work (refresh_access_token w settings raw) after).1
  unfolding get_by_hash
  refresh_twice raw db after pair h =
      let r = refresh-Refreshed raw db after pair h in
      let old : RefreshToken → Bool = has_hash (hash_refresh_token w raw) in
      let spent : ℕ × RefreshToken = (r.stored.0, revoked r.now r.stored.1) in
      let mid = update_id r.stored.0 (revoked r.now) db.refresh_tokens in
      let selected : select old mid ≡ spent ∷ [] =
        select-update_id old r.stored.0 (revoked r.now) db.refresh_tokens (λ row. refl)
        ∙ ap (update_id r.stored.0 (revoked r.now))
            (scalar_one_or_none-eq-some _ r.stored (ap (λ x. x.0) r.found))
        ∙ update_id_own r.stored.0 (revoked r.now) r.stored.1 in
      let differs : old r.new.1 ≡ false =
        eq_bytes_sym r.new.1.token_hash (hash_refresh_token w raw)
        ∙ (let (passes, fails) =
              selected_passes old (has_hash r.new.1.token_hash) mid spent selected r.fresh in
            ap (λ hash. eq_bytes hash r.new.1.token_hash) (sym (eq_bytes-eq _ _ passes)) ∙ fails) in
      let again : get_by_hash (hash_refresh_token w raw) after ≡ (ok (some spent), after) =
        ap (λ rows. (scalar_one_or_none (select old rows), after)) r.rows
        ∙ ap (λ rows. (scalar_one_or_none rows, after))
            (select-skip_row old mid r.new differs ∙ selected) in
      let by_new : RefreshToken → Bool = has_hash (hash_refresh_token w pair.refresh_token) in
      let no_other : any (λ row. by_new row.1) mid ≡ false =
        ap (λ hash. any (λ row. has_hash hash row.1) mid) (sym r.token_hash) ∙ r.fresh in
      let itself : by_new r.new.1 ≡ true =
        ap (λ hash. eq_bytes hash (hash_refresh_token w pair.refresh_token)) r.token_hash
        ∙ eq_bytes_refl (hash_refresh_token w pair.refresh_token) in
      let refused = refresh_reuse w settings raw spent after r.now again refl in
      (
        r.new,
        ap (λ rows. (scalar_one_or_none (select by_new rows), after)) r.rows
            ∙ ap (λ rows. (scalar_one_or_none rows, after))
                (select-append_row by_new mid r.new (select_none by_new mid no_other) itself),
        refused.0,
        subst
            (λ family. IsEnded family (unit_of_work (refresh_access_token w settings raw) after).1)
            (sym r.of_family) refused.1,
      )
