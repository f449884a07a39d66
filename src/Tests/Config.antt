-- ===== src/Tests/Config.antt =====
-- Settings for production.
use text.Mathlib.Text.{◌==◌ as str_eq}
use theclub_api.Prelude.{◌≡◌, refl, false, [], ◌∷◌, All, any}
use theclub_api.Result.{ok}
use theclub_api.Config.{
  Settings, prod, check_fields, check_bet_limits, check_sasl_credentials, check_secrets,
  check_production_secrets, check_cors_wildcard_in_production, validate_settings,
}
use theclub_api.Config.Accepted.{IsStrong, validate_settings_production}
use theclub_api.Tests.Data.{settings}

abbrev production : Settings
production = record settings {
  app_env = prod;
  jwt_secret = "0123456789abcdef0123456789abcdef";
  jwt_previous_secrets = [];
}

production_run : validate_settings production ≡ ok tt
unfolding validate_settings check_fields check_bet_limits check_sasl_credentials check_secrets
    check_production_secrets check_cors_wildcard_in_production
production_run = refl

validate_settings_production_example :
    All IsStrong (production.jwt_secret ∷ production.jwt_previous_secrets)
    × (any (λ origin. str_eq origin "*") production.cors_origins ≡ false)
validate_settings_production_example = validate_settings_production production production_run refl
