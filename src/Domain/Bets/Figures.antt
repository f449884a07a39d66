-- ===== src/Domain/Bets/Figures.antt =====
-- The figures that are accepted, against a description by coordinates, which builds no figure.
use theclub_api.Prelude.{
  ℕ, zero, suc, ◌+◌, ◌-◌, ◌/◌, ◌%◌, ◌<◌, ◌≡◌, refl, Bool, true, false, not, ◌&&◌, ◌||◌, List, [],
  ◌∷◌, arith, leb, ◌==◌, any, if◌then◌else◌,
}
use theclub_api.Result.{ok, err, invalid_bet}
use theclub_api.Domain.Table
use theclub_api.Domain.Table.{BetType}
use theclub_api.Domain.Bets.{Selection, numbers, same_set, integers, covered_numbers}

-- The numbers lie on the grid, side by side in a row or one above the other in a column.
abbrev pub is_neighbour : ℕ → ℕ → Bool
is_neighbour a b =
    leb 1 a
    && leb 1 b
    && ((((a - 1) % 3 == (b - 1) % 3) && (a == b + 3 || b == a + 3))
        || (((a - 1) / 3 == (b - 1) / 3) && (a == b + 1 || b == a + 1)))

-- `{"numbers": [...]}`
abbrev pub pick : List ℕ → Selection
pick s = ("numbers", numbers (integers s)) ∷ []

abbrev same_test : Bool → Bool → Bool
same_test true b = b
same_test false b = not b

abbrev accepts : List (List ℕ) → List ℕ → Bool
accepts figures s = any (λ f. same_set (integers s) (integers f)) figures

unfoldable pub holds_upto : (ℕ → Bool) → ℕ → Bool
holds_upto test zero = true
holds_upto test (suc k) = holds_upto test k && test k

pub holds_upto_at : (test : ℕ → Bool) (k v : ℕ) → v < k → holds_upto test k ≡ true → test v ≡ true
unfolding holds_upto
holds_upto_at test zero v l whole = absurd (omega arith)
holds_upto_at test (suc k) v l whole = ground (arith, holds_upto_at test k v)

same_test_eq : (a b : Bool) → same_test a b ≡ true → a ≡ b
same_test_eq true b h = ground arith
same_test_eq false b h = ground arith

split_agrees : ℕ → ℕ → Bool
split_agrees a b = same_test (accepts Table.splits (a ∷ b ∷ [])) (is_neighbour a b)

split_table : holds_upto (λ a. holds_upto (split_agrees a) 37) 37 ≡ true
unfolding holds_upto split_agrees Table.splits
split_table = refl

-- A split of two pockets of the wheel is accepted exactly if they are neighbours on the grid.
pub split_iff_neighbour :
    (a b : ℕ)
    → a < 37
    → b < 37
    → covered_numbers BetType.split (pick (a ∷ b ∷ []))
      ≡ (if is_neighbour a b then ok (integers (a ∷ b ∷ [])) else err invalid_bet)
unfolding covered_numbers
split_iff_neighbour a b ha hb =
    let row = holds_upto_at (λ a. holds_upto (split_agrees a) 37) 37 a ha split_table in
    let cell = holds_upto_at (split_agrees a) 37 b hb row in
    let e : accepts Table.splits (a ∷ b ∷ []) ≡ is_neighbour a b =
      same_test_eq _ _ (unfold split_agrees in cell) in
    rw e
