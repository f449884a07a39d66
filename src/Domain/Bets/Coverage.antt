-- ===== src/Domain/Bets/Coverage.antt =====
-- How many pockets a bet covers, against its specification.
use theclub_api.Prelude.{
  ℕ, ◌≡◌, refl, Bool, true, Option, some, List, [], ◌∷◌, arith, any, every, count, range_from, ◌∙◌,
  ◌==◌, ==_iff, count-cong, any-every, ℤ, pos, ==ℤ_iff, ◌==ℤ◌, inl, inr, Bool-cases,
}
use theclub_api.Result.{ok}
use theclub_api.Domain.Table
use theclub_api.Domain.Table.{red_numbers, black_numbers, BetType, bet_specs, pocket_count}
use theclub_api.Domain.Bets.{
  straights, odd_numbers, even_numbers, high_numbers, low_numbers, Selection, SelectionValue,
  number, numbers, contains_ℤ, same_set, integers, get_key, covered_numbers, figure_numbers,
  fixed_numbers, indexed_numbers,
}

every-contains :
    (s t : List ℤ) (a : ℤ)
    → every (contains_ℤ t) s ≡ true
    → contains_ℤ s a ≡ true
    → contains_ℤ t a ≡ true
every-contains [] t a h m = absurd (cc)
every-contains (x ∷ s) t a h m = ground (arith, every-contains s t a, ==ℤ_iff a x)

-- Equal sets have the same members.
contains-same_set : (s t : List ℤ) (a : ℤ) → same_set s t ≡ true → contains_ℤ s a ≡ contains_ℤ t a
contains-same_set s t a h = ground (arith, every-contains s t a, every-contains t s a)

-- How many pockets of the wheel a set of integers holds.
pub pockets_in : List ℤ → ℕ
pockets_in s = count (λ o. contains_ℤ s (pos o)) (range_from 0 pocket_count)

pub pockets_in_lem :
    (s : List ℤ) → count (λ o. contains_ℤ s (pos o)) (range_from 0 pocket_count) ≡ pockets_in s
unfolding pockets_in
pockets_in_lem s = refl

pockets_in-same_set : (s t : List ℤ) → same_set s t ≡ true → pockets_in s ≡ pockets_in t
unfolding pockets_in
pockets_in-same_set s t h =
    count-cong (λ o. contains_ℤ s (pos o)) (λ o. contains_ℤ t (pos o)) (range_from 0 pocket_count)
      (λ o. contains-same_set s t (pos o) h)

abbrev all_hold : ℕ → List (List ℕ) → Bool
all_hold n figures = every (λ f. pockets_in (integers f) == n) figures

figures_coverage :
    (n : ℕ) (figures : List (List ℕ)) (v : Option SelectionValue) (s : List ℤ)
    → all_hold n figures ≡ true
    → figure_numbers figures v ≡ ok s
    → pockets_in s ≡ n
figures_coverage n figures (some (numbers ns)) s all h =
    elim (Bool-cases (any (λ f. same_set ns (integers f)) figures)) [
      | inl valid ↦
          let (f, same, size) =
            any-every (λ f. same_set ns (integers f)) (λ f. pockets_in (integers f) == n) figures
              valid all in
          let e : ns ≡ s = ground arith in
          rw (← e) (pockets_in-same_set ns (integers f) same ∙ (==_iff _ n).0 size)
      | inr invalid ↦ ground arith
    ]
figures_coverage n figures _ s all h = cc

indexed_coverage :
    (n : ℕ) (by_index : List (ℕ × List ℕ)) (v : Option SelectionValue) (s : List ℤ)
    → every (λ e. pockets_in (integers e.1) == n) by_index ≡ true
    → indexed_numbers by_index v ≡ ok s
    → pockets_in s ≡ n
indexed_coverage n [] (some (number i)) s all h = cc
indexed_coverage n ((j, f) ∷ rest) (some (number i)) s all h = elim (Bool-cases (i ==ℤ pos j)) [
  | inl here ↦ let e : integers f ≡ s = ground arith in rw (← e) ((==_iff _ n).0 (ground arith))
  | inr later ↦ indexed_coverage n rest (some (number i)) s (ground arith) (rw later at h)
]
indexed_coverage n by_index _ s all h = ground arith

fixed_coverage :
    (n : ℕ) (f : List ℕ) (selection : Selection) (s : List ℤ)
    → pockets_in (integers f) ≡ n
    → fixed_numbers f selection ≡ ok s
    → pockets_in s ≡ n
fixed_coverage n f [] s e h = let same : integers f ≡ s = cc in rw (← same) e
fixed_coverage n f (_ ∷ _) s e h = cc

-- The set that `covered_numbers` returns holds, of the 37 pockets, as many as `BET_SPECS` gives for
-- the bet type.
pub covered_numbers_coverage :
    (bet_type : BetType) (selection : Selection) (s : List ℤ)
    → covered_numbers bet_type selection ≡ ok s
    → pockets_in s ≡ (bet_specs bet_type).coverage
unfolding covered_numbers bet_specs pockets_in
covered_numbers_coverage BetType.straight sel s h =
    figures_coverage 1 straights (get_key "numbers" sel) s refl h
covered_numbers_coverage BetType.split sel s h =
    figures_coverage 2 Table.splits (get_key "numbers" sel) s refl h
covered_numbers_coverage BetType.street sel s h =
    figures_coverage 3 Table.streets (get_key "numbers" sel) s refl h
covered_numbers_coverage BetType.corner sel s h =
    figures_coverage 4 Table.corners (get_key "numbers" sel) s refl h
covered_numbers_coverage BetType.line sel s h =
    figures_coverage 6 Table.lines (get_key "numbers" sel) s refl h
covered_numbers_coverage BetType.dozen sel s h =
    indexed_coverage 12 Table.dozen_by_index (get_key "index" sel) s refl h
covered_numbers_coverage BetType.column sel s h =
    indexed_coverage 12 Table.column_by_index (get_key "index" sel) s refl h
covered_numbers_coverage BetType.red sel s h = fixed_coverage 18 red_numbers sel s refl h
covered_numbers_coverage BetType.black sel s h = fixed_coverage 18 black_numbers sel s refl h
covered_numbers_coverage BetType.odd sel s h = fixed_coverage 18 odd_numbers sel s refl h
covered_numbers_coverage BetType.even sel s h = fixed_coverage 18 even_numbers sel s refl h
covered_numbers_coverage BetType.high sel s h = fixed_coverage 18 high_numbers sel s refl h
covered_numbers_coverage BetType.low sel s h = fixed_coverage 18 low_numbers sel s refl h
