-- ===== src/Services.antt =====
-- app/services: the use cases, each one transaction over the tables.
pub mod Wallet
pub mod Untouched
pub mod Roulette
pub mod Fairness
pub mod Auth
pub mod Idempotency
