-- ===== src/Services/Auth/Issued.antt =====
-- The row of a pair of tokens that was issued.
use theclub_api.Prelude.{ℕ, ◌≡◌, refl, sym, ap, ◌∙◌, false, ◌++◌, any, none, [], ◌∷◌}
use theclub_api.Result.{ok}
use theclub_api.Exec.{◌>>=◌, bind_returned, returned_eq}
use theclub_api.Config.{Settings}
use theclub_api.Db.{Db, RefreshToken}
use theclub_api.World.{World}
use theclub_api.Repositories.RefreshTokens.{has_hash, insert_token, insert_token-eq-ok, create}
use theclub_api.Security.{hash_refresh_token, create_access_token}
use theclub_api.Services.Auth.{TokenPair, issue_tokens}

module _ (w : World) (settings : Settings) where
  -- Tokens that were issued: one new row of the family, live, with the hash of the raw token.
  pub record Issued (user_id family_id : ℕ) (db after : Db) (pair : TokenPair) : Type 0 where
    pub new : ℕ × RefreshToken
    pub fresh : any (λ r. has_hash new.1.token_hash r.1) db.refresh_tokens ≡ false
    pub rows : after.refresh_tokens ≡ db.refresh_tokens ++ new ∷ []
    pub token_hash : new.1.token_hash ≡ hash_refresh_token w pair.refresh_token
    pub user_id_eq : new.1.user_id ≡ user_id
    pub family_id_eq : new.1.family_id ≡ family_id
    pub live : new.1.revoked_at ≡ none

  pub issue_tokens-Issued :
      (user_id family_id : ℕ) (db after : Db) (pair : TokenPair)
      → issue_tokens w settings user_id family_id db ≡ (ok pair, after)
      → Issued user_id family_id db after pair
  unfolding issue_tokens create create_access_token ◌>>=◌
  issue_tokens-Issued user_id family_id db after pair h =
      bind_returned (insert_token _ _) _ _ _ _ h λ row db1 e1 h1.
        let (free, same, rows) = insert_token-eq-ok _ _ _ db1 row e1 in
        let done = returned_eq h1 in
        record {
          new = (_, _);
          fresh = free;
          rows = ap (λ (d : Db). d.refresh_tokens) (sym done.1) ∙ rows;
          token_hash = ap (λ (p : TokenPair). hash_refresh_token w p.refresh_token) done.0;
          user_id_eq = refl;
          family_id_eq = refl;
          live = refl;
        }
