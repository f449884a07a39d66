-- ===== src/Domain/Bets.antt =====
-- app/domain/roulette/bets.py: what a bet covers, and whether it may be placed.
-- A selection is a dict from text to an integer or a list of integers, in insertion order.
pub mod Coverage
pub mod Validation
pub mod Figures
pub mod Geometry
pub mod Shape
use text.Mathlib.Text.{◌==◌ as str_eq}
use theclub_api.Prelude.{
  ◌≡◌, ℕ, ◌+◌, ◌*◌, ◌%◌, String, Bool, true, false, not, ◌&&◌, ◌||◌, Option, none, some, List, [],
  ◌∷◌, map, ◌==◌, if◌then◌else◌, any, every, keep, range_from, ℤ, pos, ◌==ℤ◌,
}
use theclub_api.Result.{Result, ok, err, invalid_bet, ◌>>=◌, ◌>>◌, raise_if}
use theclub_api.Domain.Money.{Money, less}
use theclub_api.Domain.Table
use theclub_api.Domain.Table.{BetType, red_numbers, black_numbers}

pub data SelectionValue : Type 0 where
  number : ℤ → SelectionValue
  numbers : List ℤ → SelectionValue

abbrev pub Selection : Type 0
Selection = List (String × SelectionValue)

pub record PlacedBet : Type 0 where
  pub bet_type : BetType
  pub selection : Selection
  pub stake : Money

-- `selection.get(key)`
abbrev pub get_key : String → Selection → Option SelectionValue
get_key key [] = none
get_key key ((k, v) ∷ rest) = if str_eq k key then some v else get_key key rest

-- Sets of integers, as lists read by membership.
abbrev pub contains_ℤ : List ℤ → ℤ → Bool
contains_ℤ s n = any (λ x. n ==ℤ x) s

abbrev pub same_set : List ℤ → List ℤ → Bool
same_set s t = every (contains_ℤ t) s && every (contains_ℤ s) t

abbrev pub integers : List ℕ → List ℤ
integers s = map pos s

abbrev pub odd_numbers : List ℕ
odd_numbers = keep (λ n. n % 2 == 1) (range_from 1 36)

-- `range(2, 37, 2)`
abbrev pub even_numbers : List ℕ
even_numbers = map (λ k. 2 * k) (range_from 1 18)

abbrev pub high_numbers : List ℕ
high_numbers = range_from 19 18

abbrev pub low_numbers : List ℕ
low_numbers = range_from 1 18

abbrev pub straights : List (List ℕ)
straights = map (λ n. n ∷ []) (range_from 0 37)

-- `_FIXED_SELECTIONS`
unfoldable pub fixed_selections : BetType → Option (List ℕ)
fixed_selections BetType.red = some red_numbers
fixed_selections BetType.black = some black_numbers
fixed_selections BetType.odd = some odd_numbers
fixed_selections BetType.even = some even_numbers
fixed_selections BetType.high = some high_numbers
fixed_selections BetType.low = some low_numbers
fixed_selections _ = none

-- `_NUMBERS_SELECTIONS`
unfoldable pub numbers_selections : BetType → Option (List (List ℕ))
unfolding Table.splits Table.streets Table.corners Table.lines
numbers_selections BetType.straight = some straights
numbers_selections BetType.split = some Table.splits
numbers_selections BetType.street = some Table.streets
numbers_selections BetType.corner = some Table.corners
numbers_selections BetType.line = some Table.lines
numbers_selections _ = none

-- `_INDEX_SELECTIONS`
unfoldable pub index_selections : BetType → Option (List (ℕ × List ℕ))
unfolding Table.dozen_by_index Table.column_by_index
index_selections BetType.dozen = some Table.dozen_by_index
index_selections BetType.column = some Table.column_by_index
index_selections _ = none

-- `index in by_index` and `by_index[index]`
abbrev pub get_index : ℤ → List (ℕ × List ℕ) → Option (List ℕ)
get_index i [] = none
get_index i ((j, s) ∷ rest) = if i ==ℤ pos j then some s else get_index i rest

-- The three branches of `covered_numbers`.
abbrev pub fixed_numbers : List ℕ → Selection → Result (List ℤ)
fixed_numbers s [] = ok (integers s)
fixed_numbers s (_ ∷ _) = err invalid_bet

abbrev pub figure_numbers : List (List ℕ) → Option SelectionValue → Result (List ℤ)
figure_numbers figures (some (numbers ns)) =
    if any (λ f. same_set ns (integers f)) figures then ok ns else err invalid_bet
figure_numbers figures _ = err invalid_bet

abbrev pub found_numbers : Option (List ℕ) → Result (List ℤ)
found_numbers none = err invalid_bet
found_numbers (some s) = ok (integers s)

abbrev pub indexed_numbers : List (ℕ × List ℕ) → Option SelectionValue → Result (List ℤ)
indexed_numbers by_index (some (number i)) = found_numbers (get_index i by_index)
indexed_numbers by_index _ = err invalid_bet

-- the three dicts that may hold the bet type, in the order in which they are tried
abbrev pub dispatch :
    Option (List ℕ)
    → Option (List (List ℕ))
    → Option (List (ℕ × List ℕ))
    → Selection
    → Result (List ℤ)
dispatch (some s) _ _ selection = fixed_numbers s selection
dispatch none (some figures) _ selection = figure_numbers figures (get_key "numbers" selection)
dispatch none none (some by_index) selection = indexed_numbers by_index (get_key "index" selection)
dispatch none none none selection = err invalid_bet

-- `covered_numbers`
unfoldable pub covered_numbers : BetType → Selection → Result (List ℤ)
unfolding fixed_selections numbers_selections index_selections
covered_numbers bet_type selection =
    dispatch (fixed_selections bet_type) (numbers_selections bet_type) (index_selections bet_type)
      selection

-- `covered_numbers` returns for the bet.
abbrev pub IsShaped : PlacedBet → Type 0
IsShaped bet = (s : List ℤ) × (covered_numbers bet.bet_type bet.selection ≡ ok s)

-- The limits that `validate_bet` tests; the right side of `or` runs only where the left is false.
abbrev pub out_of_bounds : Money → Money → Money → Result Bool
out_of_bounds stake min_bet max_bet = do
  below ← less stake min_bet
  if below then ok true else less max_bet stake

-- `validate_bet`
unfoldable pub validate_bet : PlacedBet → Money → Money → Result (Unit {0})
unfolding less
validate_bet bet min_bet max_bet = do
  raise_if (not (str_eq bet.stake.currency min_bet.currency)) invalid_bet
  outside ← out_of_bounds bet.stake min_bet max_bet
  raise_if outside invalid_bet
  covered_numbers bet.bet_type bet.selection
  ok tt
