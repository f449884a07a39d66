-- ===== src/Domain/Fairness/Decimal.antt =====
-- The decimal digits of a number: they can be read back, and none is a colon.
use mathlib.Core.List.{foldl, foldl-append}
use theclub_api.Prelude.{
  ℕ, zero, suc, ◌+◌, ◌-◌, ◌*◌, ◌/◌, ◌<◌, ◌≢◌, ◌≡◌, sym, ap, ◌∙◌, All, All-append, inl, inr, arith,
  ltb, Bool-cases,
}
use theclub_api.Domain.Fairness.{Bytes, digits, decimal}

abbrev add_digit : ℕ → ℕ → ℕ
add_digit n c = n * 10 + (c - b'0')

-- The number that a row of digits stands for.
abbrev pub read_decimal : Bytes → ℕ
read_decimal = foldl add_digit 0

read_decimal-digits : (fuel n : ℕ) → n < fuel → read_decimal (digits fuel n) ≡ n
unfolding digits
read_decimal-digits zero n h = elim h [ ]
read_decimal-digits (suc fuel) n h = elim (Bool-cases (ltb n 10)) [
  | inl small ↦ rw small (ground arith)
  | inr large ↦
      rw (large, foldl-append) (rw (read_decimal-digits fuel (n / 10) (ground arith)) (omega arith))
]

pub read_decimal-decimal : (n : ℕ) → read_decimal (decimal n) ≡ n
unfolding decimal
read_decimal-decimal n = read_decimal-digits (suc n) n (omega arith)

pub decimal-injective : (n m : ℕ) → decimal n ≡ decimal m → n ≡ m
decimal-injective n m e = sym (read_decimal-decimal n) ∙ ap read_decimal e ∙ read_decimal-decimal m

abbrev pub NotColon : ℕ → Type 0
NotColon c = c ≢ b':'

digits-NotColon : (fuel n : ℕ) → All NotColon (digits fuel n)
unfolding digits
digits-NotColon zero n = tt
digits-NotColon (suc fuel) n = elim (Bool-cases (ltb n 10)) [
  | inl small ↦ rw small (ground arith)
  | inr large ↦ rw large (All-append NotColon _ _ (digits-NotColon fuel (n / 10)) (omega arith))
]

pub decimal-NotColon : (n : ℕ) → All NotColon (decimal n)
unfolding decimal
decimal-NotColon n = digits-NotColon (suc n) n
