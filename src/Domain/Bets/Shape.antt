-- ===== src/Domain/Bets/Shape.antt =====
-- The selections for which `covered_numbers` returns, described by the grid.
use theclub_api.Prelude.{
  ℕ, ◌≤◌, ◌≡◌, ◌⊎◌, inl, inr, ◌↔◌, refl, ap, subst, true, false, Bool-cases, Option, none, some,
  List, [], ◌∷◌, arith, any, every, any-every, ℤ, pos, ◌==ℤ◌, ==ℤ_iff,
}
use theclub_api.Result.{Result, ok}
use theclub_api.Domain.Table
use theclub_api.Domain.Table.{BetType, red_numbers, black_numbers}
use theclub_api.Domain.Bets.{
  Selection, SelectionValue, number, numbers, straights, odd_numbers, even_numbers, high_numbers,
  low_numbers, same_set, integers, get_key, figure_numbers, indexed_numbers, fixed_numbers,
  covered_numbers,
}
use theclub_api.Domain.Bets.Figures.{holds_upto}
use theclub_api.Domain.Bets.Geometry.{
  kinds, IsOneOf, known, all_listed, some_upto, known-IsOneOf, IsOneOf-listed,
}

straights_in_kinds : every (known (kinds BetType.straight)) straights ≡ true
unfolding known some_upto
straights_in_kinds = refl

straights_complete : all_listed straights (kinds BetType.straight) ≡ true
unfolding all_listed holds_upto
straights_complete = refl

splits_in_kinds : every (known (kinds BetType.split)) Table.splits ≡ true
unfolding known some_upto Table.splits
splits_in_kinds = refl

splits_complete : all_listed Table.splits (kinds BetType.split) ≡ true
unfolding all_listed holds_upto Table.splits
splits_complete = refl

streets_in_kinds : every (known (kinds BetType.street)) Table.streets ≡ true
unfolding known some_upto Table.streets
streets_in_kinds = refl

streets_complete : all_listed Table.streets (kinds BetType.street) ≡ true
unfolding all_listed holds_upto Table.streets
streets_complete = refl

corners_in_kinds : every (known (kinds BetType.corner)) Table.corners ≡ true
unfolding known some_upto Table.corners
corners_in_kinds = refl

corners_complete : all_listed Table.corners (kinds BetType.corner) ≡ true
unfolding all_listed holds_upto Table.corners
corners_complete = refl

lines_in_kinds : every (known (kinds BetType.line)) Table.lines ≡ true
unfolding known some_upto Table.lines
lines_in_kinds = refl

lines_complete : all_listed Table.lines (kinds BetType.line) ≡ true
unfolding all_listed holds_upto Table.lines
lines_complete = refl

-- A list of numbers that form a figure of one of the kinds, or an index from 1 to 3.
abbrev pub IsNumbers : BetType → Option SelectionValue → Type 0
IsNumbers t v = (ns : List ℤ) × (v ≡ some (numbers ns)) × IsOneOf (kinds t) ns

abbrev pub IsIndex : Option SelectionValue → Type 0
IsIndex v = (k : ℕ) × (1 ≤ k) × (k ≤ 3) × (v ≡ some (number (pos k)))

-- A selection of the bet type: `numbers` that form a figure of the grid, the `index` of a dozen or a
-- column, or nothing at all.
abbrev pub IsFigure : BetType → Selection → Type 0
IsFigure BetType.straight selection = IsNumbers BetType.straight (get_key "numbers" selection)
IsFigure BetType.split selection = IsNumbers BetType.split (get_key "numbers" selection)
IsFigure BetType.street selection = IsNumbers BetType.street (get_key "numbers" selection)
IsFigure BetType.corner selection = IsNumbers BetType.corner (get_key "numbers" selection)
IsFigure BetType.line selection = IsNumbers BetType.line (get_key "numbers" selection)
IsFigure BetType.dozen selection = IsIndex (get_key "index" selection)
IsFigure BetType.column selection = IsIndex (get_key "index" selection)
IsFigure _ selection = selection ≡ []

abbrev Returned : Result (List ℤ) → Type 0
Returned r = (s : List ℤ) × (r ≡ ok s)

figure_numbers_iff :
    (t : BetType) (figures : List (List ℕ))
    → every (known (kinds t)) figures ≡ true
    → all_listed figures (kinds t) ≡ true
    → (v : Option SelectionValue) → Returned (figure_numbers figures v) ↔ IsNumbers t v
figure_numbers_iff t figures all_known listed (some (numbers ns)) =
    elim (Bool-cases (any (λ f. same_set ns (integers f)) figures)) [
      | inl found ↦
          let (f, same, kind) = any-every _ _ figures found all_known in
          (λ r. (ns, refl, known-IsOneOf (kinds t) f ns kind same), λ one. (ns, rw found))
      | inr missing ↦ (
        λ r. absurd (cc (rw missing at r.1)),
        λ (ms, e, one).
            let same : ns ≡ ms = cc e in
            let here = IsOneOf-listed (kinds t) figures ms listed one in
            absurd (
              cc (
                subst (λ x. any (λ f. same_set x (integers f)) figures ≡ false) same missing,
                here,
              )),
      )
    ]
figure_numbers_iff t figures all_known listed (some (number i)) =
    (λ r. absurd (cc r.1), λ n. absurd (cc n.1))
figure_numbers_iff t figures all_known listed none = (λ r. absurd (cc r.1), λ n. absurd (cc n.1))

found_index :
    (a b c : List ℕ) (k : ℕ)
    → (k ≡ 1) ⊎ ((k ≡ 2) ⊎ (k ≡ 3))
    → Returned (indexed_numbers ((1, a) ∷ (2, b) ∷ (3, c) ∷ []) (some (number (pos k))))
found_index a b c k (inl one) = (integers a, rw one)
found_index a b c k (inr (inl two)) = (integers b, rw two)
found_index a b c k (inr (inr three)) = (integers c, rw three)

indexed_numbers_iff :
    (a b c : List ℕ) (v : Option SelectionValue)
    → Returned (indexed_numbers ((1, a) ∷ (2, b) ∷ (3, c) ∷ []) v) ↔ IsIndex v
indexed_numbers_iff a b c (some (number i)) = (
  λ r. elim (Bool-cases (i ==ℤ pos 1)) [
    | inl one ↦
        (1, ground arith, ground arith, ap (λ x. some (number x)) ((==ℤ_iff i (pos 1)).0 one))
    | inr not_one ↦ elim (Bool-cases (i ==ℤ pos 2)) [
      | inl two ↦
          (2, ground arith, ground arith, ap (λ x. some (number x)) ((==ℤ_iff i (pos 2)).0 two))
      | inr not_two ↦ elim (Bool-cases (i ==ℤ pos 3)) [
        | inl three ↦
            (3, ground arith, ground arith, ap (λ x. some (number x)) ((==ℤ_iff i (pos 3)).0 three))
        | inr other ↦ absurd (cc (rw (not_one, not_two, other) at r.1))
      ]
    ]
  ],
  λ (k, low, high, e).
      let same : i ≡ pos k = cc e in
      let one_of : (k ≡ 1) ⊎ ((k ≡ 2) ⊎ (k ≡ 3)) = omega arith in
      rw same (found_index a b c k one_of),
)
indexed_numbers_iff a b c (some (numbers ns)) = (λ r. absurd (cc r.1), λ n. absurd (cc n.3))
indexed_numbers_iff a b c none = (λ r. absurd (cc r.1), λ n. absurd (cc n.3))

fixed_numbers_iff : (s : List ℕ) (sel : Selection) → Returned (fixed_numbers s sel) ↔ (sel ≡ [])
fixed_numbers_iff s [] = (λ r. refl, λ e. (integers s, refl))
fixed_numbers_iff s (x ∷ sel) = (λ r. absurd (cc r.1), λ e. absurd (cc e))

-- `covered_numbers` returns exactly for the selections of the bet type.
pub covered_numbers-IsFigure :
    (t : BetType) (sel : Selection) → Returned (covered_numbers t sel) ↔ IsFigure t sel
unfolding covered_numbers Table.dozen_by_index Table.column_by_index Table.columns
covered_numbers-IsFigure BetType.straight sel =
    figure_numbers_iff BetType.straight straights straights_in_kinds straights_complete
      (get_key "numbers" sel)
covered_numbers-IsFigure BetType.split sel =
    figure_numbers_iff BetType.split Table.splits splits_in_kinds splits_complete
      (get_key "numbers" sel)
covered_numbers-IsFigure BetType.street sel =
    figure_numbers_iff BetType.street Table.streets streets_in_kinds streets_complete
      (get_key "numbers" sel)
covered_numbers-IsFigure BetType.corner sel =
    figure_numbers_iff BetType.corner Table.corners corners_in_kinds corners_complete
      (get_key "numbers" sel)
covered_numbers-IsFigure BetType.line sel =
    figure_numbers_iff BetType.line Table.lines lines_in_kinds lines_complete
      (get_key "numbers" sel)
covered_numbers-IsFigure BetType.dozen sel = indexed_numbers_iff _ _ _ (get_key "index" sel)
covered_numbers-IsFigure BetType.column sel = indexed_numbers_iff _ _ _ (get_key "index" sel)
covered_numbers-IsFigure BetType.red sel = fixed_numbers_iff red_numbers sel
covered_numbers-IsFigure BetType.black sel = fixed_numbers_iff black_numbers sel
covered_numbers-IsFigure BetType.odd sel = fixed_numbers_iff odd_numbers sel
covered_numbers-IsFigure BetType.even sel = fixed_numbers_iff even_numbers sel
covered_numbers-IsFigure BetType.high sel = fixed_numbers_iff high_numbers sel
covered_numbers-IsFigure BetType.low sel = fixed_numbers_iff low_numbers sel
