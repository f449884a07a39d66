-- ===== src/Events/Schemas.antt =====
-- app/events/schemas.py: the events that are written to the outbox, and what pydantic tests when one
-- is built. An `event_type` is the constructor of its data; `producer` and `event_version` are fixed.
use text.Mathlib.Text.{◌==◌ as str_eq}
use theclub_api.Prelude.{
  ℕ, String, Bool, true, false, not, ◌||◌, Option, List, [], ◌∷◌, any, ltb, ℤ, pos, ltb_ℤ,
}
use theclub_api.Result.{Result, ok, validation_error, raise_if, ◌>>◌}
use theclub_api.Domain.Table.{BetType}
use theclub_api.Domain.Bets.{Selection}

pub record BetPlacedData : Type 0 where
  pub round_id : ℕ
  pub bet_id : ℕ
  pub user_id : ℕ
  pub bet_type : BetType
  pub selection : Selection
  pub stake_minor : ℤ
  pub currency : String

pub record SettledBet : Type 0 where
  pub bet_id : ℕ
  pub bet_type : BetType
  pub selection : Selection
  pub stake_minor : ℤ
  pub payout_minor : ℤ
  pub won : Bool

pub record RoundSettledData : Type 0 where
  pub round_id : ℕ
  pub user_id : ℕ
  pub seed_pair_id : ℕ
  pub nonce : ℕ
  pub outcome : ℕ
  pub bets : List SettledBet
  pub total_stake_minor : ℤ
  pub total_payout_minor : ℤ
  pub net_minor : ℤ
  pub currency : String

pub data WalletTransactionKind : Type 0 where
  deposit bet_stake bet_payout adjustment : WalletTransactionKind

pub data RefType : Type 0 where
  round bet manual : RefType

pub record WalletTransactionData : Type 0 where
  pub transaction_id : ℕ
  pub user_id : ℕ
  pub wallet_id : ℕ
  pub kind : WalletTransactionKind
  pub amount_minor : ℤ
  pub balance_after_minor : ℤ
  pub currency : String
  pub ref_type : Option RefType
  pub ref_id : Option ℕ

pub data EventData : Type 0 where
  bet_placed : BetPlacedData → EventData
  round_settled : RoundSettledData → EventData
  wallet_transaction : WalletTransactionData → EventData

pub record EventEnvelope : Type 0 where
  pub event_id : ℕ
  pub occurred_at : ℕ
  pub idempotency_key : Option String
  pub event_data : EventData

abbrev is_euro : String → Bool
is_euro currency = str_eq currency "EUR"

-- The constraints on the fields, `Field(ge=…)`, `Field(le=36)`, `Field(min_length=1)` and
-- `Literal["EUR"]`.
abbrev is_empty {ℓ} : {A : Type ℓ} → List A → Bool
is_empty [] = true
is_empty (x ∷ xs) = false

abbrev bad_settled : SettledBet → Bool
bad_settled b = ltb_ℤ b.stake_minor (pos 1) || ltb_ℤ b.payout_minor (pos 0)

unfoldable pub is_invalid : EventData → Bool
is_invalid (bet_placed d) = ltb_ℤ d.stake_minor (pos 1) || not (is_euro d.currency)
is_invalid (round_settled d) =
    ltb 36 d.outcome
    || is_empty d.bets
    || any bad_settled d.bets
    || ltb_ℤ d.total_stake_minor (pos 1)
    || ltb_ℤ d.total_payout_minor (pos 0)
    || not (is_euro d.currency)
is_invalid (wallet_transaction d) = ltb_ℤ d.balance_after_minor (pos 0) || not (is_euro d.currency)

-- Building the model of the data.
unfoldable pub build : EventData → Result EventData
unfolding is_invalid
build d = do raise_if (is_invalid d) validation_error; ok d

-- `EVENT_TOPIC_SUFFIXES[envelope.event_type]`
unfoldable pub event_topic_suffix : EventData → String
event_topic_suffix (bet_placed d) = "bets.placed.v1"
event_topic_suffix (round_settled d) = "rounds.settled.v1"
event_topic_suffix (wallet_transaction d) = "wallet.transactions.v1"
