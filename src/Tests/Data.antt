-- ===== src/Tests/Data.antt =====
-- A small world: one user with a wallet, a ledger entry and an active seed pair.
use text.Mathlib.Text.{◌==◌ as str_eq}
use theclub_api.Prelude.{◌+◌, none, some, List, [], ◌∷◌, pos, if◌then◌else◌}
use theclub_api.Domain.Fairness.{Bytes}
use theclub_api.Domain.Table.{BetType}
use theclub_api.Domain.Bets.{numbers}
use theclub_api.Events.Schemas.{WalletTransactionKind}
use theclub_api.Config.{Settings, local, plaintext}
use theclub_api.Db.{Db, Wallet, LedgerEntry, SeedPair, SeedStatus}
use theclub_api.World.{World, matches, mismatch, payload, invalid}
use theclub_api.Services.Roulette.{BetRequest}

-- every block of the HMAC begins with the number 17
abbrev pub hmac : Bytes → Bytes → Bytes
hmac key m = 0 ∷ 0 ∷ 0 ∷ 17 ∷ m

abbrev pub world : World
world = record {
  uuid4 = λ n. 1000 + n;
  now = λ n. 5000000 + n;
  server_now = λ n. 5000000 + n;
  token_bytes = λ n. n ∷ [];
  hmac = hmac;
  sha256_hex = λ s. b'h' ∷ s;
  spin_fuel = 1;
  lower = λ s. s;
  argon2_hash = λ n p. p;
  argon2_verify = λ h p. if str_eq h p then matches else mismatch;
  jwt_encode = λ c s a. s;
  jwt_decode = λ now t s a. if str_eq t s then payload (some "seven") else invalid;
  parse_uuid = λ s. some 7;
  show_uuid = λ n. "seven";
}

abbrev pub settings : Settings
settings = record {
  app_name = "theclub-api";
  app_version = "0.1.0";
  app_env = local;
  cors_origins = "http://localhost:3000" ∷ [];
  kafka_security_protocol = plaintext;
  kafka_sasl_username = none;
  kafka_sasl_password = none;
  jwt_previous_secrets = [];
  kafka_topic_prefix = "theclub";
  access_token_ttl_seconds = 900;
  refresh_token_ttl_seconds = 86400;
  table_min_bet_minor = pos 10;
  table_max_bet_minor = pos 1000;
  idempotency_key_ttl_hours = 24;
  ws_max_connections = 2;
  ws_connect_rate_limit_attempts = 3;
  max_request_body_bytes = pos 1000000;
  outbox_poll_interval_ms = 500;
  outbox_retention_hours = 168;
  outbox_cleanup_interval_s = 3600;
  jwt_secret = "current";
  jwt_algorithm = "HS256";
}

abbrev pub wallet : Wallet
wallet = record { user_id = 7; balance_minor = pos 1000; currency = "EUR" }

abbrev pub entry : LedgerEntry
entry = record {
  id = 1;
  wallet_id = 5;
  amount_minor = pos 1000;
  balance_after_minor = pos 1000;
  kind = WalletTransactionKind.deposit;
  ref_type = none;
  ref_id = none;
  created_at = 4000000;
}

abbrev pub seed_pair : SeedPair
seed_pair = record {
  user_id = 7;
  server_seed = 1 ∷ [];
  server_seed_hash = b'h' ∷ 1 ∷ [];
  client_seed = 2 ∷ [];
  nonce = 4;
  status = SeedStatus.active;
  revealed_at = none;
}

abbrev pub db : Db
db = record {
  users = [];
  wallets = (5, wallet) ∷ [];
  ledger = entry ∷ [];
  seed_pairs = (3, seed_pair) ∷ [];
  rounds = [];
  bets = [];
  outbox = [];
  refresh_tokens = [];
  idempotency_keys = [];
  started = 5000000;
  calls = 0;
}

-- ten cents on 17, and twenty on red
abbrev pub requests : List BetRequest
requests =
    record {
      bet_type = BetType.straight;
      selection = ("numbers", numbers (pos 17 ∷ [])) ∷ [];
      stake_minor = pos 10;
    }
    ∷ record { bet_type = BetType.red; selection = []; stake_minor = pos 20 }
    ∷ []
