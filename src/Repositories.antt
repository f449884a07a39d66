-- ===== src/Repositories.antt =====
-- app/repositories: the statements that read and write each table.
pub mod Wallets
pub mod Ledger
pub mod SeedPairs
pub mod Rounds
pub mod Outbox
pub mod Users
pub mod RefreshTokens
pub mod IdempotencyKeys
pub mod Listing
