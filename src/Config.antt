-- ===== src/Config.antt =====
-- app/config.py: the settings that the modelled parts read, and the validators of `Settings`.
pub mod Accepted
use text.Mathlib.Text.{◌==◌ as str_eq}
use Prim.Native.String.{count as count_str}
use theclub_api.Prelude.{
  ℕ, String, Bool, true, false, not, ◌&&◌, ◌||◌, Option, none, some, List, [], ◌∷◌, any, ltb, ℤ,
  pos, ltb_ℤ, if◌then◌else◌,
}
use theclub_api.Result.{Result, ok, err, value_error, raise_if, ◌>>=◌, ◌>>◌}

pub data Environment : Type 0 where
  local test staging prod : Environment

pub data SecurityProtocol : Type 0 where
  plaintext ssl sasl_plaintext sasl_ssl : SecurityProtocol

pub record Settings : Type 0 where
  pub app_name : String
  pub app_version : String
  pub app_env : Environment
  pub cors_origins : List String
  pub kafka_security_protocol : SecurityProtocol
  pub kafka_sasl_username : Option String
  pub kafka_sasl_password : Option String
  pub kafka_topic_prefix : String
  pub jwt_secret : String
  pub jwt_algorithm : String
  pub access_token_ttl_seconds : ℕ
  pub refresh_token_ttl_seconds : ℕ
  pub jwt_previous_secrets : List String
  pub table_min_bet_minor : ℤ
  pub table_max_bet_minor : ℤ
  pub idempotency_key_ttl_hours : ℕ
  pub ws_max_connections : ℕ
  pub ws_connect_rate_limit_attempts : ℕ
  pub max_request_body_bytes : ℤ
  pub outbox_poll_interval_ms : ℕ
  pub outbox_retention_hours : ℕ
  pub outbox_cleanup_interval_s : ℕ

abbrev pub is_production : Settings → Bool
is_production settings = elim settings.app_env [ staging ↦ true | prod ↦ true | _ ↦ false ]

-- `Field(ge=…)` of the fields above
unfoldable pub check_fields : Settings → Result (Unit {0})
check_fields s = do
  raise_if (ltb s.access_token_ttl_seconds 60) value_error
  raise_if (ltb s.refresh_token_ttl_seconds 300) value_error
  raise_if (ltb_ℤ s.table_min_bet_minor (pos 1)) value_error
  raise_if (ltb_ℤ s.table_max_bet_minor (pos 1)) value_error
  raise_if (ltb s.idempotency_key_ttl_hours 1) value_error
  raise_if (ltb s.ws_max_connections 1) value_error
  raise_if (ltb s.ws_connect_rate_limit_attempts 1) value_error
  raise_if (ltb_ℤ s.max_request_body_bytes (pos 1024)) value_error
  raise_if (ltb s.outbox_poll_interval_ms 50) value_error
  raise_if (ltb s.outbox_retention_hours 1) value_error
  raise_if (ltb s.outbox_cleanup_interval_s 60) value_error

-- `_check_bet_limits`
unfoldable pub check_bet_limits : Settings → Result (Unit {0})
check_bet_limits s = raise_if (ltb_ℤ s.table_max_bet_minor s.table_min_bet_minor) value_error

abbrev is_sasl : SecurityProtocol → Bool
is_sasl plaintext = false
is_sasl ssl = false
is_sasl sasl_plaintext = true
is_sasl sasl_ssl = true

-- truth of `str | None`: neither None nor empty
abbrev is_given : Option String → Bool
is_given none = false
is_given (some s) = not (str_eq s "")

-- `_check_sasl_credentials`
unfoldable pub check_sasl_credentials : Settings → Result (Unit {0})
check_sasl_credentials s =
    raise_if
      (is_sasl s.kafka_security_protocol
        && not (is_given s.kafka_sasl_username && is_given s.kafka_sasl_password))
      value_error

abbrev pub placeholder_secret : String
placeholder_secret = "change-me-in-production-000000000"

-- the loop of `_check_production_secrets`
unfoldable pub check_secrets : List String → Result (Unit {0})
check_secrets [] = ok tt
check_secrets (secret ∷ secrets) = do
  raise_if (str_eq secret placeholder_secret) value_error
  raise_if (ltb (count_str secret) 32) value_error
  check_secrets secrets

-- `_check_production_secrets`
unfoldable pub check_production_secrets : Settings → Result (Unit {0})
check_production_secrets s =
    if not (is_production s) then ok tt else check_secrets (s.jwt_secret ∷ s.jwt_previous_secrets)

-- `_check_cors_wildcard_in_production`
unfoldable pub check_cors_wildcard_in_production : Settings → Result (Unit {0})
check_cors_wildcard_in_production s =
    raise_if (is_production s && any (λ origin. str_eq origin "*") s.cors_origins) value_error

-- The settings are made: the fields, then the validators in their order.
unfoldable pub validate_settings : Settings → Result (Unit {0})
validate_settings s = do
  check_fields s
  check_bet_limits s
  check_sasl_credentials s
  check_production_secrets s
  check_cors_wildcard_in_production s
