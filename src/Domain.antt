-- ===== src/Domain.antt =====
-- app/domain: money, provable fairness and the roulette table, with no input or output.
pub mod Money
pub mod Fairness
pub mod Table
pub mod Bets
pub mod Engine
