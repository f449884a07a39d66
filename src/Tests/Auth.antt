-- ===== src/Tests/Auth.antt =====
-- Sessions and access tokens.
use theclub_api.Prelude.{ℕ, ◌≡◌, refl, ◌↔◌, String, some, none, [], ◌∷◌}
use theclub_api.Result.{ok, err, refresh_reused}
use theclub_api.Exec.{◌>>=◌}
use theclub_api.Exec.Session.{unit_of_work}
use theclub_api.Domain.Fairness.{Bytes}
use theclub_api.Rows.{update_id, insert_row}
use theclub_api.Db.{Db, RefreshToken}
use theclub_api.World.{payload}
use theclub_api.Repositories.RefreshTokens.{get_by_hash, revoke, insert_token, create}
use theclub_api.Security.{hash_refresh_token, create_access_token, decode_access_token}
use theclub_api.Security.Rotation.{IsSignedBy, decode_access_token_iff}
use theclub_api.Services.Auth.{TokenPair, refresh_access_token, rotate, issue_tokens}
use theclub_api.Services.Auth.Refresh.{IsEnded, refresh_reuse, refresh_twice}
use theclub_api.Tests.Data.{world, settings, db}

abbrev raw : Bytes
raw = 9 ∷ []

abbrev token : RefreshToken
token = record {
  user_id = 7;
  family_id = 30;
  token_hash = b'h' ∷ 9 ∷ [];
  expires_at = 9000000;
  revoked_at = none;
}

abbrev logged_in : Db
logged_in = record db { refresh_tokens = (21, token) ∷ [] }

abbrev spent : ℕ × RefreshToken
spent = (21, record token { revoked_at = some 5000000 })

abbrev stolen : Db
stolen = record db {
  refresh_tokens = spent ∷ (22, record token { token_hash = b'h' ∷ 8 ∷ [] }) ∷ [];
}

stolen_found : get_by_hash (hash_refresh_token world raw) stolen ≡ (ok (some spent), stolen)
unfolding get_by_hash
stolen_found = refl

refresh_reuse_example :
    ((unit_of_work (refresh_access_token world settings raw) stolen).0 ≡ err refresh_reused)
    × IsEnded 30 (unit_of_work (refresh_access_token world settings raw) stolen).1
refresh_reuse_example = refresh_reuse world settings raw spent stolen 5000000 stolen_found refl

abbrev refreshed : Db
refreshed = (unit_of_work (refresh_access_token world settings raw) logged_in).1

abbrev tokens : TokenPair
tokens = record { access_token = "current"; refresh_token = 2 ∷ [] }

refresh_run :
    unit_of_work (refresh_access_token world settings raw) logged_in ≡ (ok tokens, refreshed)
unfolding refresh_access_token unit_of_work rotate get_by_hash revoke insert_token create
    issue_tokens create_access_token update_id insert_row ◌>>=◌
refresh_run = refl

refresh_twice_example :
    (new : ℕ × RefreshToken) × (get_by_hash
        (hash_refresh_token world tokens.refresh_token)
        refreshed
      ≡ (ok (some new), refreshed))
    × ((unit_of_work (refresh_access_token world settings raw) refreshed).0 ≡ err refresh_reused)
    × IsEnded new.1.family_id (unit_of_work (refresh_access_token world settings raw) refreshed).1
refresh_twice_example = refresh_twice world settings raw logged_in refreshed tokens refresh_run

decode_access_token_iff_example :
    (decode_access_token world 0 "former" "current" "HS256" ("former" ∷ []) ≡ ok 7) ↔ (
      (signer : String) × (sub : String) × IsSignedBy world 0 "former" "HS256" signer
        ("current" ∷ "former" ∷ [])
      × (world.jwt_decode 0 "former" signer "HS256" ≡ payload (some sub))
      × (world.parse_uuid sub ≡ some 7))
decode_access_token_iff_example =
    decode_access_token_iff world 0 "former" "HS256" "current" ("former" ∷ []) 7
