-- ===== src/Api/Deposits.antt =====
-- app/api/v1/wallet.py: POST /wallet/deposit and GET /wallet/balance.
use theclub_api.Prelude.{ℕ, String, Bool, not, ◌&&◌, ℤ, pos, ltb_ℤ, leb_ℤ}
use theclub_api.Result.{request_invalid, raise_if}
use theclub_api.Exec.{Exec, lift, pure, ◌>>=◌, ◌>>◌}
use theclub_api.Json.{Dict}
use theclub_api.Domain.Fairness.{Bytes}
use theclub_api.Db.{Db}
use theclub_api.Config.{Settings}
use theclub_api.World.{World}
use theclub_api.Services.Idempotency.{run_idempotent}
use theclub_api.Services.Wallet
use theclub_api.Services.Wallet.{view_to_dict, max_deposit_minor}
use theclub_api.Api.App.{App, on_db, notify}
use theclub_api.Api.Rounds.{is_key_length, request_of}

-- the bounds of `DepositRequest`
unfoldable pub is_deposit_request : ℤ → Bool
is_deposit_request amount_minor =
    ltb_ℤ (pos 0) amount_minor && leb_ℤ amount_minor (pos max_deposit_minor)

-- `get_balance`
unfoldable pub balance_route : ℕ → Exec Db Dict
balance_route user_id = do result ← Wallet.get_balance user_id; pure (view_to_dict result)

module _ (w : World) (settings : Settings) (user_id : ℕ) (idempotency_key : String) where
  -- `work` of `deposit`
  unfoldable pub deposit_work : ℤ → Exec Db Dict
  deposit_work amount_minor = do
    result ← Wallet.deposit w settings user_id idempotency_key amount_minor
    pure (view_to_dict result)

  -- `deposit`, for an authenticated user
  unfoldable pub deposit_route : Bytes → ℤ → Exec App Dict
  deposit_route raw_body amount_minor = do
    lift (
        raise_if (not (is_key_length idempotency_key && is_deposit_request amount_minor))
          request_invalid)
    result ← on_db (
        run_idempotent w (request_of w settings user_id idempotency_key raw_body)
          (deposit_work amount_minor))
    notify user_id "balance.updated" result
    pure result
