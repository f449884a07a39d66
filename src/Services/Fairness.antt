-- ===== src/Services/Fairness.antt =====
-- app/services/fairness.py: look up the active seed pair, and rotate it.
pub mod Rotation
pub mod Verified
pub mod Returns
use theclub_api.Prelude.{
  ℕ, ◌+◌, ◌-◌, ◌/◌, ◌%◌, Option, none, some, List, [], ◌∷◌, ltb, if◌then◌else◌,
}
use theclub_api.Result.{data_integrity, or_raise}
use theclub_api.Exec.{Exec, lift, pure, ◌>>=◌, ◌>>◌}
use theclub_api.Domain.Fairness.{Bytes}
use theclub_api.Db.{Db, SeedPair}
use theclub_api.World.{World, new_secret}
use theclub_api.Repositories.SeedPairs.{get_active_by_user_id, create_active, reveal_and_deactivate}

pub record CurrentSeedView : Type 0 where
  pub server_seed_hash : Bytes
  pub client_seed : Bytes
  pub nonce : ℕ

pub record RotateSeedView : Type 0 where
  pub revealed_server_seed : Bytes
  pub revealed_server_seed_hash : Bytes
  pub new_server_seed_hash : Bytes
  pub new_client_seed : Bytes

-- `bytes.hex()`: two digits for each byte
abbrev hex_digit : ℕ → ℕ
hex_digit n = if ltb n 10 then b'0' + n else b'a' + (n - 10)

unfoldable pub hex : Bytes → Bytes
hex [] = []
hex (b ∷ bytes) = hex_digit (b / 16) ∷ hex_digit (b % 16) ∷ hex bytes

module _ (w : World) where
  -- `get_current_seed`
  unfoldable pub get_current_seed : ℕ → Exec Db CurrentSeedView
  get_current_seed user_id = do
    active ← get_active_by_user_id user_id
    pair ← lift (or_raise active data_integrity)
    pure (record {
      server_seed_hash = pair.1.server_seed_hash;
      client_seed = pair.1.client_seed;
      nonce = pair.1.nonce;
    })

  -- `rotate_seed`
  unfoldable pub rotate_seed : ℕ → Exec Db RotateSeedView
  rotate_seed user_id = do
    active ← get_active_by_user_id user_id
    current ← lift (or_raise active data_integrity)
    reveal_and_deactivate w current.0
    new_seed ← new_secret w
    client_seed ← new_secret w
    new_pair ← create_active w user_id new_seed (w.sha256_hex new_seed) client_seed
    pure (record {
      revealed_server_seed = hex current.1.server_seed;
      revealed_server_seed_hash = current.1.server_seed_hash;
      new_server_seed_hash = new_pair.1.server_seed_hash;
      new_client_seed = new_pair.1.client_seed;
    })
