-- ===== src/Db.antt =====
-- app/models: the rows of each table, and the whole database. A column whose CHECK lists its values
-- is a data type of those values; an id is a number, a time a number of microseconds, an opaque text or a
-- JSON document is what the program puts there.
use theclub_api.Prelude.{
  ℕ, ◌-◌, ◌^◌, String, Bool, ◌&&◌, Option, List, ℤ, pos, negsuc, leb_ℤ, ltb_ℤ,
}
use theclub_api.Domain.Fairness.{Bytes}
use theclub_api.Domain.Table.{BetType}
use theclub_api.Domain.Bets.{Selection}
use theclub_api.Events.Schemas.{EventEnvelope, WalletTransactionKind, RefType}
use theclub_api.Rows.{Table}
use theclub_api.Json.{Dict}

pub data UserStatus : Type 0 where
  active suspended : UserStatus

pub record User : Type 0 where
  pub email : String
  pub password_hash : String
  pub status : UserStatus
  pub created_at : ℕ

pub record Wallet : Type 0 where
  pub user_id : ℕ
  pub balance_minor : ℤ
  pub currency : String

pub record LedgerEntry : Type 0 where
  pub id : ℕ
  pub wallet_id : ℕ
  pub amount_minor : ℤ
  pub balance_after_minor : ℤ
  pub kind : WalletTransactionKind
  pub ref_type : Option RefType
  pub ref_id : Option ℕ
  pub created_at : ℕ

pub data SeedStatus : Type 0 where
  active revealed : SeedStatus

pub record SeedPair : Type 0 where
  pub user_id : ℕ
  pub server_seed : Bytes
  pub server_seed_hash : Bytes
  pub client_seed : Bytes
  pub nonce : ℕ
  pub status : SeedStatus
  pub revealed_at : Option ℕ

pub data RoundStatus : Type 0 where
  pending settled : RoundStatus

pub record Round : Type 0 where
  pub user_id : ℕ
  pub seed_pair_id : ℕ
  pub nonce : ℕ
  pub outcome : Option ℕ
  pub status : RoundStatus
  pub settled_at : Option ℕ
  pub created_at : ℕ

pub data BetStatus : Type 0 where
  pending won lost : BetStatus

pub record Bet : Type 0 where
  pub round_id : ℕ
  pub bet_type : BetType
  pub selection : Selection
  pub stake_minor : ℤ
  pub payout_minor : ℤ
  pub status : BetStatus

pub record OutboxEvent : Type 0 where
  pub topic : String
  pub key : ℕ
  pub payload : EventEnvelope
  pub created_at : ℕ
  pub published_at : Option ℕ
  pub attempts : ℕ
  pub last_error : Option String
  pub next_attempt_at : Option ℕ

pub record RefreshToken : Type 0 where
  pub user_id : ℕ
  pub family_id : ℕ
  pub token_hash : Bytes
  pub expires_at : ℕ
  pub revoked_at : Option ℕ

pub data IdempotencyStatus : Type 0 where
  pending completed : IdempotencyStatus

pub record IdempotencyKey : Type 0 where
  pub user_id : ℕ
  pub key : String
  pub request_hash : Bytes
  pub response_body : Option Dict
  pub status : IdempotencyStatus
  pub expires_at : ℕ
  pub created_at : ℕ

-- The tables, when the running transaction began (PostgreSQL's `now()`), and how many calls of the
-- clock, of `uuid4` and of `secrets` have been made.
pub record Db : Type 0 where
  pub users : Table User
  pub wallets : Table Wallet
  pub ledger : List LedgerEntry
  pub seed_pairs : Table SeedPair
  pub rounds : Table Round
  pub bets : Table Bet
  pub outbox : Table OutboxEvent
  pub refresh_tokens : Table RefreshToken
  pub idempotency_keys : Table IdempotencyKey
  pub started : ℕ
  pub calls : ℕ

-- The range of a BIGINT column.
abbrev pub bigint_limit : ℕ
bigint_limit = 2 ^ 63

unfoldable pub fits_bigint : ℤ → Bool
fits_bigint x = leb_ℤ (negsuc (bigint_limit - 1)) x && ltb_ℤ x (pos bigint_limit)
