-- ===== src/Api/Fairness.antt =====
-- app/api/v1/roulette.py: GET /roulette/fairness/current and POST /roulette/fairness/rotate.
use theclub_api.Prelude.{ℕ, String, Option}
use theclub_api.Exec.{Exec, pure, ◌>>=◌}
use theclub_api.Exec.Session.{within}
use theclub_api.Domain.Fairness.{Bytes}
use theclub_api.Db.{Db}
use theclub_api.Config.{Settings}
use theclub_api.World.{World}
use theclub_api.Services.Fairness.{CurrentSeedView, RotateSeedView, get_current_seed, rotate_seed}
use theclub_api.Api.Auth.{get_session}
use theclub_api.Api.Deps.{get_current_user}

pub record FairnessCurrentResponse : Type 0 where
  pub server_seed_hash : Bytes
  pub client_seed : Bytes
  pub nonce : ℕ

pub record FairnessRotateResponse : Type 0 where
  pub revealed_server_seed : Bytes
  pub revealed_server_seed_hash : Bytes
  pub new_server_seed_hash : Bytes
  pub new_client_seed : Bytes

-- `to_dict` of each view, as its response model reads it
abbrev pub current_response : CurrentSeedView → FairnessCurrentResponse
current_response view = record {
  server_seed_hash = view.server_seed_hash;
  client_seed = view.client_seed;
  nonce = view.nonce;
}

abbrev pub rotate_response : RotateSeedView → FairnessRotateResponse
rotate_response view = record {
  revealed_server_seed = view.revealed_server_seed;
  revealed_server_seed_hash = view.revealed_server_seed_hash;
  new_server_seed_hash = view.new_server_seed_hash;
  new_client_seed = view.new_client_seed;
}

module _ (w : World) (settings : Settings) where
  -- `fairness_current`
  unfoldable pub fairness_current : Option String → Exec Db FairnessCurrentResponse
  fairness_current auth_header = get_session w (do
    user ← within (get_current_user w settings auth_header)
    result ← within (get_current_seed w user.0)
    pure (current_response result))

  -- `fairness_rotate`
  unfoldable pub fairness_rotate : Option String → Exec Db FairnessRotateResponse
  fairness_rotate auth_header = get_session w (do
    user ← within (get_current_user w settings auth_header)
    result ← within (rotate_seed w user.0)
    pure (rotate_response result))
