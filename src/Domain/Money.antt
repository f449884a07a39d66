-- ===== src/Domain/Money.antt =====
-- app/domain/money.py: amounts in integer minor units, with their currency.
-- `__post_init__` and the `isinstance` test of `__mul__` refuse what is no `int`: here the types do.
use text.Mathlib.Text.{◌==◌ as str_eq}
use theclub_api.Prelude.{String, Bool, not, ℤ, pos, ◌+ℤ◌, ◌-ℤ◌, ◌*ℤ◌, ltb_ℤ}
use theclub_api.Result.{Result, ok, value_error, ◌>>◌, raise_if}

pub record Money : Type 0 where
  pub minor : ℤ
  pub currency : String

-- `Money(minor)`: the currency's default
abbrev pub euros : ℤ → Money
euros minor = record { minor = minor; currency = "EUR" }

-- `Money.zero`
unfoldable pub zero_money : String → Money
zero_money currency = record { minor = pos 0; currency = currency }

-- `_check_same_currency`
abbrev pub check_same_currency : Money → Money → Result (Unit {0})
check_same_currency a b = raise_if (not (str_eq a.currency b.currency)) value_error

-- `__add__`, `__sub__`, `__mul__`, `__lt__`
unfoldable pub add : Money → Money → Result Money
add a b = do
  check_same_currency a b
  ok (record { minor = a.minor +ℤ b.minor; currency = a.currency })

unfoldable pub subtract : Money → Money → Result Money
subtract a b = do
  check_same_currency a b
  ok (record { minor = a.minor -ℤ b.minor; currency = a.currency })

unfoldable pub times : Money → ℤ → Money
times a factor = record { minor = a.minor *ℤ factor; currency = a.currency }

unfoldable pub less : Money → Money → Result Bool
less a b = do check_same_currency a b; ok (ltb_ℤ a.minor b.minor)
