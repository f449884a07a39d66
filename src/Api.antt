-- ===== src/Api.antt =====
-- app/api: the HTTP routes.
pub mod Errors
pub mod Deps
pub mod Auth
pub mod App
pub mod Asgi
pub mod Health
pub mod Rounds
pub mod Deposits
pub mod Fairness
pub mod Retry
pub mod DepositOnce
pub mod Ws
pub mod Pagination
pub mod Histories
pub mod Balanced
