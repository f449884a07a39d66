-- ===== src/Domain/Bets/Validation.antt =====
-- Which bets are accepted, and how the others are refused.
use text.Mathlib.TextEquality.{eq_iff}
use theclub_api.Prelude.{
  ℕ, ◌⊎◌, inl, inr, [], ◌∷◌, Option, none, some, any, Bool-cases, ◌≡◌, refl, ◌↔◌, List, arith, ℤ,
  ◌≤ℤ◌,
}
use theclub_api.Result.{Error, ok, err, invalid_bet}
use theclub_api.Domain.Money.{Money}
use theclub_api.Domain.Table.{BetType}
use theclub_api.Domain.Bets.Shape.{IsFigure, covered_numbers-IsFigure}
use theclub_api.Domain.Bets.{
  PlacedBet, Selection, SelectionValue, number, numbers, same_set, integers, get_index, get_key,
  dispatch, fixed_numbers, figure_numbers, found_numbers, indexed_numbers, covered_numbers,
  IsShaped, validate_bet,
}

figure_numbers-cases :
    (figures : List (List ℕ)) (v : Option SelectionValue)
    → ((s : List ℤ) × (figure_numbers figures v ≡ ok s))
      ⊎ (figure_numbers figures v ≡ err invalid_bet)
figure_numbers-cases figures (some (numbers ns)) =
    elim (Bool-cases (any (λ f. same_set ns (integers f)) figures)) [
      | inl t ↦ inl (ns, rw t)
      | inr t ↦ inr (rw t)
    ]
figure_numbers-cases figures (some (number i)) = inr refl
figure_numbers-cases figures none = inr refl

found_numbers-cases :
    (o : Option (List ℕ))
    → ((s : List ℤ) × (found_numbers o ≡ ok s)) ⊎ (found_numbers o ≡ err invalid_bet)
found_numbers-cases none = inr refl
found_numbers-cases (some s) = inl (integers s, refl)

indexed_numbers-cases :
    (by_index : List (ℕ × List ℕ)) (v : Option SelectionValue)
    → ((s : List ℤ) × (indexed_numbers by_index v ≡ ok s))
      ⊎ (indexed_numbers by_index v ≡ err invalid_bet)
indexed_numbers-cases by_index (some (number i)) = found_numbers-cases (get_index i by_index)
indexed_numbers-cases by_index (some (numbers ns)) = inr refl
indexed_numbers-cases by_index none = inr refl

fixed_numbers-cases :
    (f : List ℕ) (sel : Selection)
    → ((s : List ℤ) × (fixed_numbers f sel ≡ ok s)) ⊎ (fixed_numbers f sel ≡ err invalid_bet)
fixed_numbers-cases f [] = inl (integers f, refl)
fixed_numbers-cases f (_ ∷ _) = inr refl

dispatch-cases :
    (a : Option (List ℕ)) (b : Option (List (List ℕ))) (c : Option (List (ℕ × List ℕ)))
    (sel : Selection)
    → ((s : List ℤ) × (dispatch a b c sel ≡ ok s)) ⊎ (dispatch a b c sel ≡ err invalid_bet)
dispatch-cases (some s) b c sel = fixed_numbers-cases s sel
dispatch-cases none (some figures) c sel = figure_numbers-cases figures (get_key "numbers" sel)
dispatch-cases none none (some by_index) sel = indexed_numbers-cases by_index (get_key "index" sel)
dispatch-cases none none none sel = inr refl

-- `covered_numbers` returns a set or raises InvalidBetError.
pub covered_numbers-cases :
    (t : BetType) (sel : Selection)
    → ((s : List ℤ) × (covered_numbers t sel ≡ ok s)) ⊎ (covered_numbers t sel ≡ err invalid_bet)
unfolding covered_numbers
covered_numbers-cases t sel = dispatch-cases _ _ _ sel

module _ (bet : PlacedBet) (min_bet max_bet : Money)
    (same : min_bet.currency ≡ max_bet.currency) where
  accepted_limits :
      (s : List ℤ)
      → covered_numbers bet.bet_type bet.selection ≡ ok s
      → validate_bet bet min_bet max_bet ≡ ok tt
      → (bet.stake.currency ≡ min_bet.currency)
        × (min_bet.minor ≤ℤ bet.stake.minor)
        × (bet.stake.minor ≤ℤ max_bet.minor)
  unfolding validate_bet
  accepted_limits s shape h = ground (
    arith,
    shape,
    eq_iff bet.stake.currency min_bet.currency,
    eq_iff max_bet.currency bet.stake.currency,
  )

  validate_bet-IsShaped : (validate_bet bet min_bet max_bet ≡ ok tt) ↔ (
      (bet.stake.currency ≡ min_bet.currency)
      × (min_bet.minor ≤ℤ bet.stake.minor)
      × (bet.stake.minor ≤ℤ max_bet.minor)
      × IsShaped bet)
  unfolding validate_bet
  validate_bet-IsShaped = elim (covered_numbers-cases bet.bet_type bet.selection) [
    | inl (s, shape) ↦ (
      λ h.
          let (currency, low, high) = accepted_limits s shape h in
          (currency, low, high, (s, shape)),
      λ h. ground (
        arith,
        shape,
        eq_iff bet.stake.currency min_bet.currency,
        eq_iff max_bet.currency bet.stake.currency,
      ),
    )
    | inr refused ↦ (
      λ h. absurd (
          ground (
            arith,
            refused,
            eq_iff bet.stake.currency min_bet.currency,
            eq_iff max_bet.currency bet.stake.currency,
          )),
      λ h. absurd (cc (refused, h.3.1)),
    )
  ]

  -- At a table with limits in one currency, a bet is accepted exactly if its stake is in that
  -- currency, lies within the limits, both included, and its selection is one of its bet type: for a
  -- straight, split, street, corner or line bet, numbers that form such a figure on the grid; for a
  -- dozen or a column, an index from 1 to 3; for any other bet, nothing.
  pub validate_bet_iff : (validate_bet bet min_bet max_bet ≡ ok tt) ↔ (
      (bet.stake.currency ≡ min_bet.currency)
      × (min_bet.minor ≤ℤ bet.stake.minor)
      × (bet.stake.minor ≤ℤ max_bet.minor)
      × IsFigure bet.bet_type bet.selection)
  validate_bet_iff =
      let (shaped, figure) = covered_numbers-IsFigure bet.bet_type bet.selection in
      (
        λ h.
            let (currency, low, high, shape) = validate_bet-IsShaped.0 h in
            (currency, low, high, shaped shape),
        λ (currency, low, high, f). validate_bet-IsShaped.1 (currency, low, high, figure f),
      )

  -- At such a table the only exception is InvalidBetError.
  pub validate_bet_error : (e : Error) → validate_bet bet min_bet max_bet ≡ err e → e ≡ invalid_bet
  unfolding validate_bet
  validate_bet_error e h = elim (covered_numbers-cases bet.bet_type bet.selection) [
    | inl (s, shape) ↦ ground (
      arith,
      eq_iff bet.stake.currency min_bet.currency,
      eq_iff max_bet.currency bet.stake.currency,
    )
    | inr refused ↦ ground (
      arith,
      eq_iff bet.stake.currency min_bet.currency,
      eq_iff max_bet.currency bet.stake.currency,
    )
  ]
