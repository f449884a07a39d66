-- ===== src/Api/Errors.antt =====
-- app/api/errors.py: the response to each exception that a route lets through.
use theclub_api.Prelude.{ℕ, String, Option, none, some, [], ◌∷◌}
use theclub_api.Result.{
  Error, email_exists, invalid_credentials, user_suspended, token_expired, invalid_token,
  refresh_reused, invalid_bet, insufficient_funds, key_conflict, in_progress, request_invalid,
}
use theclub_api.Json.{Dict, text, dict}

-- `_ERROR_MAP`
unfoldable pub error_map : Error → Option (ℕ × String)
error_map email_exists = some (409, "email already registered")
error_map invalid_credentials = some (401, "invalid credentials")
error_map user_suspended = some (403, "account is suspended")
error_map token_expired = some (401, "token has expired")
error_map invalid_token = some (401, "invalid token")
error_map refresh_reused = some (401, "session revoked")
error_map invalid_bet = some (422, "invalid bet")
error_map insufficient_funds = some (409, "insufficient funds")
error_map key_conflict = some (409, "Idempotency-Key already used with a different request body")
error_map in_progress =
    some (409, "a request with this same Idempotency-Key is already in progress")
error_map _ = none

pub record JsonResponse : Type 0 where
  pub status_code : ℕ
  pub content : Dict

-- `_make_handler`
abbrev pub make_response : ℕ → String → JsonResponse
make_response status_code detail = record {
  status_code = status_code;
  content = dict (("detail", text detail) ∷ []);
}

-- `_handle_data_integrity_error` and `_handle_unexpected_error`
abbrev pub internal_error : JsonResponse
internal_error = make_response 500 "internal error"

abbrev pub respond_mapped : Option (ℕ × String) → JsonResponse
respond_mapped none = internal_error
respond_mapped (some (status_code, detail)) = make_response status_code detail

-- The handlers of `register_error_handlers` and `UnhandledExceptionMiddleware`, before a response has
-- begun. `unprocessable` is FastAPI's own answer to a request that its models refuse.
unfoldable pub respond : JsonResponse → Error → JsonResponse
respond unprocessable request_invalid = unprocessable
respond unprocessable e = respond_mapped (error_map e)
