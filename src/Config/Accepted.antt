-- ===== src/Config/Accepted.antt =====
-- What is known of settings that were accepted.
use theclub_api.Prelude.{
  sym, ap, ◌∙◌, not, if◌then◌else◌, ◌≤◌, ◌≡◌, String, Bool, true, false, arith, List, [], ◌∷◌, All,
  any, pos, ◌≤ℤ◌, ltb,
}
use text.Mathlib.Text.{◌==◌ as str_eq}
use Prim.Native.String.{count as count_str}
use theclub_api.Result.{ok, raise_if, value_error, >>=-eq-ok}
use theclub_api.Config.{
  Settings, is_production, check_fields, check_bet_limits, check_sasl_credentials, check_secrets,
  check_production_secrets, check_cors_wildcard_in_production, validate_settings,
  placeholder_secret,
}

-- A secret that is not the example and has at least 32 characters.
abbrev pub IsStrong : String → Type 0
IsStrong secret = (str_eq secret placeholder_secret ≡ false) × (32 ≤ count_str secret)

not_raised : (b : Bool) → raise_if b value_error ≡ ok tt → b ≡ false
not_raised b h = ground arith

check_secrets-IsStrong :
    (secrets : List String) → check_secrets secrets ≡ ok tt → All IsStrong secrets
unfolding check_secrets
check_secrets-IsStrong [] h = tt
check_secrets-IsStrong (secret ∷ secrets) h =
    let (_, other, h1) = >>=-eq-ok (raise_if (str_eq secret placeholder_secret) value_error) _ h in
    let (_, long, h2) = >>=-eq-ok (raise_if (ltb (count_str secret) 32) value_error) _ h1 in
    ((not_raised _ other, ground (arith, not_raised _ long)), check_secrets-IsStrong secrets h2)

module _ (s : Settings) where
  -- Settings that were accepted have bet limits that are in order, the lower one at least 1.
  pub validate_settings_limits :
      validate_settings s ≡ ok tt
      → (pos 1 ≤ℤ s.table_min_bet_minor) × (s.table_min_bet_minor ≤ℤ s.table_max_bet_minor)
  unfolding validate_settings check_fields check_bet_limits
  validate_settings_limits h = ground arith

  -- Settings that were accepted for staging or production have no signing secret, current or former,
  -- that is the example or shorter than 32 characters, and no wildcard among the CORS origins.
  pub validate_settings_production :
      validate_settings s ≡ ok tt
      → is_production s ≡ true
      → All IsStrong (s.jwt_secret ∷ s.jwt_previous_secrets)
        × (any (λ origin. str_eq origin "*") s.cors_origins ≡ false)
  unfolding validate_settings check_production_secrets check_cors_wildcard_in_production
  validate_settings_production h production =
      let (_, _, h1) = >>=-eq-ok (check_fields s) _ h in
      let (_, _, h2) = >>=-eq-ok (check_bet_limits s) _ h1 in
      let (_, _, h3) = >>=-eq-ok (check_sasl_credentials s) _ h2 in
      let (_, secrets, cors) = >>=-eq-ok (check_production_secrets s) _ h3 in
      (
        check_secrets-IsStrong _ (
            sym (
              ap
                (λ b.
                  if not b then ok tt else check_secrets (s.jwt_secret ∷ s.jwt_previous_secrets))
                production)
            ∙ secrets),
        ground (arith, not_raised _ cors),
      )
