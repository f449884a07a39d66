-- ===== src/Services/Auth/Registered.antt =====
-- What a registration that returned has done to the table of users, and what its access token says.
use theclub_api.Prelude.{
  ◌+◌, ◌*◌, ℕ, ◌≡◌, refl, sym, ap, ◌∙◌, String, ◌==◌, any, Bool-cases, inl, inr, arith, some, pos,
}
use theclub_api.Result.{Result, ok, err}
use theclub_api.Exec.{Exec, pure, ◌>>=◌, ◌>>◌, bind_returned, returned_eq}
use theclub_api.Exec.Frames.{Frames, framed, frames_rules}
use theclub_api.Domain.Fairness.{Bytes}
use theclub_api.Rows.{Table, find_id, insert_row}
use theclub_api.Config.{Settings}
use theclub_api.Db.{Db, User, UserStatus, Wallet, SeedPair, RefreshToken}
use theclub_api.World.{World, Claims, new_uuid, read_clock, new_secret, tick}
use theclub_api.Repositories.SeedPairs.{put_pairs, insert_active, create_active}
use theclub_api.Repositories.Users
use theclub_api.Repositories.RefreshTokens
use theclub_api.Repositories.RefreshTokens.{put_token, insert_token}
use theclub_api.Security.{create_access_token}
use theclub_api.Services.Auth.{TokenPair, put_wallet, add_wallet, issue_tokens, register_user}

abbrev users : Db → Table User
users db = db.users

new_uuid-Frames : (w : World) → Frames users (new_uuid w)
new_uuid-Frames w = record { at = λ db. refl }

read_clock-Frames : (w : World) → Frames users (read_clock w)
read_clock-Frames w = record { at = λ db. refl }

new_secret-Frames : (w : World) → Frames users (new_secret w)
new_secret-Frames w = record { at = λ db. refl }

put_wallet-users : (t : Result (Table Wallet)) (db : Db) → users (put_wallet t db).1 ≡ users db
put_wallet-users (ok t) db = refl
put_wallet-users (err e) db = refl

put_pairs-users :
    (p : SeedPair) (id : ℕ) (t : Result (Table SeedPair)) (db : Db)
    → users (put_pairs p id t db).1 ≡ users db
put_pairs-users p id (ok t) db = refl
put_pairs-users p id (err e) db = refl

put_token-users :
    (r : RefreshToken) (id : ℕ) (t : Result (Table RefreshToken)) (db : Db)
    → users (put_token r id t db).1 ≡ users db
put_token-users r id (ok t) db = refl
put_token-users r id (err e) db = refl

insert_active-Frames : (p : SeedPair) (id : ℕ) → Frames users (insert_active p id)
unfolding insert_active
insert_active-Frames p id = record {
  at = λ db. ground (arith, put_pairs-users p id (insert_row id p db.seed_pairs) db);
}

insert_token-Frames : (r : RefreshToken) (id : ℕ) → Frames users (insert_token r id)
unfolding insert_token
insert_token-Frames r id = record {
  at = λ db. ground (arith, put_token-users r id (insert_row id r db.refresh_tokens) db);
}

create_active-Frames :
    (w : World) (user_id : ℕ) (server_seed hash client_seed : Bytes)
    → Frames users (create_active w user_id server_seed hash client_seed)
unfolding create_active
create_active-Frames w user_id server_seed hash client_seed =
    search (frames_rules, new_uuid-Frames, insert_active-Frames)

module _ (w : World) (settings : Settings) where
  issue_tokens-Frames :
      (user_id family_id : ℕ) → Frames users (issue_tokens w settings user_id family_id)
  unfolding issue_tokens RefreshTokens.create create_access_token
  issue_tokens-Frames user_id family_id =
      search
        (frames_rules, new_uuid-Frames, read_clock-Frames, new_secret-Frames, insert_token-Frames)
        depth 12

  add_wallet-Frames : (user_id : ℕ) → Frames users (add_wallet w settings user_id)
  unfolding ◌>>=◌
  add_wallet-Frames user_id = record {
    at = λ db.
        let new : Wallet = record { user_id = user_id; balance_minor = pos 0; currency = "EUR" } in
        elim (Bool-cases (any (λ row. row.1.user_id == user_id) db.wallets)) [
          | inl taken ↦ rw taken refl
          | inr free ↦
              rw free (put_wallet-users (insert_row (w.uuid4 db.calls) new db.wallets) (tick db))
        ];
  }

  -- An access token of a user: signed with the current secret, it names the user.
  pub record IsTokenOf (user_id : ℕ) (token : String) : Type 0 where
    pub claims : Claims
    pub sub : claims.sub ≡ w.show_uuid user_id
    pub is_exp : claims.exp ≡ claims.iat + settings.access_token_ttl_seconds * 1000000
    pub call : ℕ
    pub is_iat : claims.iat ≡ w.now call
    pub signed : token ≡ w.jwt_encode claims settings.jwt_secret settings.jwt_algorithm

  issue_tokens-IsTokenOf :
      (user_id family_id : ℕ) (db after : Db) (pair : TokenPair)
      → issue_tokens w settings user_id family_id db ≡ (ok pair, after)
      → IsTokenOf user_id pair.access_token
  unfolding issue_tokens RefreshTokens.create create_access_token ◌>>=◌
  issue_tokens-IsTokenOf user_id family_id db after pair h =
      bind_returned (insert_token _ _) _ _ _ _ h λ row db1 e1 h1. record {
        claims = _;
        sub = refl;
        is_exp = refl;
        call = _;
        is_iat = refl;
        signed = ap (λ (p : TokenPair). p.access_token) (sym (returned_eq h1).0);
      }

  register_rest : ℕ × User → Exec Db ((ℕ × User) × TokenPair)
  register_rest user = do
    server_seed ← new_secret w
    client_seed ← new_secret w
    add_wallet w settings user.0
    create_active w user.0 server_seed (w.sha256_hex server_seed) client_seed
    family_id ← new_uuid w
    tokens ← issue_tokens w settings user.0 family_id
    pure (user, tokens)

  register_rest-Frames : (user : ℕ × User) → Frames users (register_rest user)
  unfolding register_rest
  register_rest-Frames user =
      search
        (
          frames_rules, new_uuid-Frames, new_secret-Frames, add_wallet-Frames, create_active-Frames,
          issue_tokens-Frames,
        )
        depth 14

  -- What a registration that returned has done.
  pub record Registered (email : String) (after : Db) (user : ℕ × User) (tokens : TokenPair)
      : Type 0 where
    pub email_eq : user.1.email ≡ email
    pub is_active : user.1.status ≡ UserStatus.active
    pub found : find_id user.0 after.users ≡ some user.1
    pub token : IsTokenOf user.0 tokens.access_token

  pub register_user-Registered :
      (email password : String) (db after : Db) (user : ℕ × User) (tokens : TokenPair)
      → register_user w settings email password db ≡ (ok (user, tokens), after)
      → Registered email after user tokens
  unfolding register_user register_rest
  register_user-Registered email password db after user tokens h =
      bind_returned _ _ _ _ _ h λ taken s1 _ h1. bind_returned _ _ _ _ _ h1 λ _ s2 _ h2.
        bind_returned _ _ _ _ _ h2 λ hash s3 _ h3. bind_returned _ _ _ _ _ h3 λ new s4 made h4.
          let (email_eq, is_active, found) = Users.create-eq-ok w email hash s3 s4 new made in
          let kept : users after ≡ users s4 = framed (register_rest-Frames new) h4 in
          bind_returned _ _ _ _ _ h4 λ server_seed s5 _ h5.
            bind_returned _ _ _ _ _ h5 λ client_seed s6 _ h6.
              bind_returned _ _ _ _ _ h6 λ _ s7 _ h7. bind_returned _ _ _ _ _ h7 λ _ s8 _ h8.
                bind_returned _ _ _ _ _ h8 λ family_id s9 _ h9.
                  bind_returned _ _ _ _ _ h9 λ pair s10 issued h10.
                    let done = (returned_eq h10).0 in
                    let same : new ≡ user = ap (λ r. r.0) done in
                    let own : IsTokenOf new.0 pair.access_token =
                      issue_tokens-IsTokenOf new.0 family_id s9 s10 pair issued in
                    record {
                      email_eq = ap (λ (u : ℕ × User). u.1.email) (sym same) ∙ email_eq;
                      is_active = ap (λ (u : ℕ × User). u.1.status) (sym same) ∙ is_active;
                      found =
                          ap (λ (u : ℕ × User). find_id u.0 after.users) (sym same)
                          ∙ ap (find_id new.0) kept
                          ∙ found
                          ∙ ap (λ (u : ℕ × User). some u.1) same;
                      token = record {
                        claims = own.claims;
                        sub = own.sub ∙ ap (λ (u : ℕ × User). w.show_uuid u.0) same;
                        is_exp = own.is_exp;
                        call = own.call;
                        is_iat = own.is_iat;
                        signed =
                            ap (λ (r : (ℕ × User) × TokenPair). r.1.access_token) (sym done)
                            ∙ own.signed;
                      };
                    }
