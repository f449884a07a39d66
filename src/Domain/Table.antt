-- ===== src/Domain/Table.antt =====
-- app/domain/roulette/table.py: the geometry of the table and the odds of each bet type.
-- A frozenset of numbers is a list that is read by membership only.
use theclub_api.Prelude.{
  String, ℕ, suc, ◌+◌, ◌-◌, ◌*◌, ◌/◌, ◌%◌, Bool, not, List, [], ◌∷◌, ◌++◌, map, ltb, ◌==◌,
  if◌then◌else◌, any, keep, concat_map, range_from,
}

abbrev pub pocket_count : ℕ
pocket_count = 37

-- `n in numbers`
abbrev pub contains : List ℕ → ℕ → Bool
contains numbers n = any (λ x. n == x) numbers

abbrev pub red_numbers : List ℕ
red_numbers =
    1 ∷ 3 ∷ 5 ∷ 7 ∷ 9 ∷ 12 ∷ 14 ∷ 16 ∷ 18 ∷ 19 ∷ 21 ∷ 23 ∷ 25 ∷ 27 ∷ 30 ∷ 32 ∷ 34 ∷ 36 ∷ []

-- `frozenset(range(1, 37)) - RED_NUMBERS`
abbrev pub black_numbers : List ℕ
black_numbers = keep (λ n. not (contains red_numbers n)) (range_from 1 36)

abbrev pub rows : ℕ
rows = 3

abbrev pub cols : ℕ
cols = 12

-- `_position` and `_number_at`: rows and columns count from 1
unfoldable pub position : ℕ → ℕ × ℕ
position number = ((number - 1) % rows + 1, (number - 1) / rows + 1)

unfoldable pub number_at : ℕ → ℕ → ℕ
number_at row col = (col - 1) * rows + row

pub data BetType : Type 0 where
  straight split street corner line dozen column red black odd even high low : BetType

pub record BetSpec : Type 0 where
  pub coverage : ℕ
  pub payout_ratio : ℕ

abbrev spec : ℕ → ℕ → BetSpec
spec coverage payout_ratio = record { coverage = coverage; payout_ratio = payout_ratio }

-- `BET_SPECS`
unfoldable pub bet_specs : BetType → BetSpec
bet_specs straight = spec 1 35
bet_specs split = spec 2 17
bet_specs street = spec 3 11
bet_specs corner = spec 4 8
bet_specs line = spec 6 5
bet_specs dozen = spec 12 2
bet_specs column = spec 12 2
bet_specs red = spec 18 1
bet_specs black = spec 18 1
bet_specs odd = spec 18 1
bet_specs even = spec 18 1
bet_specs high = spec 18 1
bet_specs low = spec 18 1

-- `_streets`, `_columns`, `_corners`
unfoldable pub streets : List (List ℕ)
unfolding number_at
streets = map (λ c. map (λ r. number_at r c) (range_from 1 rows)) (range_from 1 cols)

unfoldable pub columns : List (List ℕ)
unfolding number_at
columns = map (λ r. map (λ c. number_at r c) (range_from 1 cols)) (range_from 1 rows)

abbrev corner_at : ℕ → ℕ → List ℕ
corner_at r c =
    number_at r c ∷ number_at (r + 1) c ∷ number_at r (c + 1) ∷ number_at (r + 1) (c + 1) ∷ []

unfoldable pub corners : List (List ℕ)
unfolding number_at
corners =
    concat_map (λ c. map (λ r. corner_at r c) (range_from 1 (rows - 1))) (range_from 1 (cols - 1))

-- `_lines`: each street with the next
abbrev adjacent_unions : List (List ℕ) → List (List ℕ)
adjacent_unions (s ∷ t ∷ rest) = (s ++ t) ∷ adjacent_unions (t ∷ rest)
adjacent_unions _ = []

unfoldable pub lines : List (List ℕ)
unfolding streets
lines = adjacent_unions streets

-- `_splits`: from each number to the next column, and to the next row
abbrev splits_from : ℕ → List (List ℕ)
splits_from n =
    let (r, c) = position n in
    (if ltb c cols then (n ∷ number_at r (c + 1) ∷ []) ∷ [] else [])
    ++ (if ltb r rows then (n ∷ number_at (r + 1) c ∷ []) ∷ [] else [])

unfoldable pub splits : List (List ℕ)
unfolding position number_at
splits = concat_map splits_from (range_from 1 36)

-- `DOZEN_BY_INDEX` and `COLUMN_BY_INDEX`
unfoldable pub dozen_by_index : List (ℕ × List ℕ)
dozen_by_index = (1, range_from 1 12) ∷ (2, range_from 13 12) ∷ (3, range_from 25 12) ∷ []

abbrev enumerate_from : ℕ → List (List ℕ) → List (ℕ × List ℕ)
enumerate_from i [] = []
enumerate_from i (s ∷ rest) = (i, s) ∷ enumerate_from (suc i) rest

unfoldable pub column_by_index : List (ℕ × List ℕ)
unfolding columns
column_by_index = enumerate_from 1 columns

-- `bet_type.value`
unfoldable pub value : BetType → String
value straight = "straight"
value split = "split"
value street = "street"
value corner = "corner"
value line = "line"
value dozen = "dozen"
value column = "column"
value red = "red"
value black = "black"
value odd = "odd"
value even = "even"
value high = "high"
value low = "low"
