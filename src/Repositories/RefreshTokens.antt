-- ===== src/Repositories/RefreshTokens.antt =====
-- app/repositories/refresh_tokens.py, and the unique `token_hash` of app/models/refresh_token.py.
use theclub_api.Prelude.{
  ℕ, ◌≡◌, refl, arith, ◌++◌, ==_iff, Bool-cases, Option-cases, inl, inr, Bool, true, false, ◌&&◌,
  ◌==◌, Option, none, some, [], ◌∷◌, any, if◌then◌else◌,
}
use theclub_api.Result.{Result, ok, err, integrity_error}
use theclub_api.Exec.{Exec, ◌>>=◌}
use theclub_api.Domain.Fairness.{Bytes}
use theclub_api.Rows.{
  Table, find_id, insert_row, update_id, update_where, select, scalar_one_or_none,
}
use theclub_api.Db.{Db, RefreshToken}
use theclub_api.World.{World, new_uuid}

-- `=` on a text column
abbrev pub eq_bytes : Bytes → Bytes → Bool
eq_bytes [] [] = true
eq_bytes (a ∷ s) (b ∷ t) = let rest = eq_bytes s t in a == b && rest
eq_bytes _ _ = false

abbrev pub has_hash : Bytes → RefreshToken → Bool
has_hash token_hash row = eq_bytes row.token_hash token_hash

-- `RefreshTokenRepository.get_by_hash`
unfoldable pub get_by_hash : Bytes → Exec Db (Option (ℕ × RefreshToken))
get_by_hash token_hash db =
    (scalar_one_or_none (select (has_hash token_hash) db.refresh_tokens), db)

abbrev pub put_token : RefreshToken → ℕ → Result (Table RefreshToken) → Exec Db (ℕ × RefreshToken)
put_token token id (ok rows) db = (ok (id, token), record db { refresh_tokens = rows })
put_token token id (err e) db = (err e, db)

unfoldable pub insert_token : RefreshToken → ℕ → Exec Db (ℕ × RefreshToken)
insert_token token id db =
    if any (λ row. has_hash token.token_hash row.1) db.refresh_tokens
    then (err integrity_error, db)
    else put_token token id (insert_row id token db.refresh_tokens) db

-- `RefreshTokenRepository.create`
unfoldable pub create : World → ℕ → ℕ → Bytes → ℕ → Exec Db (ℕ × RefreshToken)
create w user_id family_id token_hash expires_at = do
  id ← new_uuid w
  insert_token
      (record {
        user_id = user_id;
        family_id = family_id;
        token_hash = token_hash;
        expires_at = expires_at;
        revoked_at = none;
      })
      id

abbrev pub revoked : ℕ → RefreshToken → RefreshToken
revoked now row = record row { revoked_at = some now }

-- `RefreshTokenRepository.revoke`
unfoldable pub revoke : ℕ → ℕ → Exec Db (Unit {0})
revoke token_id now db =
    (ok tt, record db { refresh_tokens = update_id token_id (revoked now) db.refresh_tokens })

abbrev pub is_live : RefreshToken → Bool
is_live row = elim row.revoked_at [ none ↦ true | some _ ↦ false ]

abbrev pub is_live_of : ℕ → RefreshToken → Bool
is_live_of family_id row = row.family_id == family_id && is_live row

-- `RefreshTokenRepository.revoke_family`
unfoldable pub revoke_family : ℕ → ℕ → Exec Db (Unit {0})
revoke_family family_id now db = (
  ok tt,
  record db {
    refresh_tokens = update_where (is_live_of family_id) (revoked now) db.refresh_tokens;
  },
)

-- An insertion that returned found no row of this hash, and added the row.
pub insert_token-eq-ok :
    (token : RefreshToken) (id : ℕ) (db after : Db) (row : ℕ × RefreshToken)
    → insert_token token id db ≡ (ok row, after)
    → (any (λ r. has_hash token.token_hash r.1) db.refresh_tokens ≡ false)
      × (row ≡ (id, token))
      × (after.refresh_tokens ≡ db.refresh_tokens ++ (id, token) ∷ [])
unfolding insert_token insert_row
insert_token-eq-ok token id db after row h =
    elim (Bool-cases (any (λ r. has_hash token.token_hash r.1) db.refresh_tokens)) [
      | inl taken ↦ absurd (ground arith)
      | inr free ↦ elim (Option-cases (find_id id db.refresh_tokens)) [
        | inl fresh ↦ (free, ground arith, ground arith)
        | inr (other, found) ↦ absurd (ground arith)
      ]
    ]

pub eq_bytes_sym : (s t : Bytes) → eq_bytes s t ≡ eq_bytes t s
eq_bytes_sym [] [] = refl
eq_bytes_sym [] (b ∷ t) = refl
eq_bytes_sym (a ∷ s) [] = refl
eq_bytes_sym (a ∷ s) (b ∷ t) = ground (arith, eq_bytes_sym s t)

pub eq_bytes_refl : (s : Bytes) → eq_bytes s s ≡ true
eq_bytes_refl [] = refl
eq_bytes_refl (a ∷ s) = ground (arith, eq_bytes_refl s)

pub eq_bytes-eq : (s t : Bytes) → eq_bytes s t ≡ true → s ≡ t
eq_bytes-eq [] [] h = refl
eq_bytes-eq [] (b ∷ t) h = cc
eq_bytes-eq (a ∷ s) [] h = cc
eq_bytes-eq (a ∷ s) (b ∷ t) h = elim (Bool-cases (a == b)) [
  | inl same ↦
      let e : a ≡ b = (==_iff a b).0 same in
      let rest : s ≡ t = eq_bytes-eq s t (rw same at h) in λ i. e i ∷ rest i
  | inr other ↦ let bad : false ≡ true = rw other at h in absurd (cc bad)
]
