-- ===== src/Services/Roulette/ToDict.antt =====
-- app/services/roulette.py: the dicts of a result, which are stored and sent.
use theclub_api.Prelude.{[], ◌∷◌, map, pos}
use theclub_api.Json.{Json, Dict, boolean, number, text, array, object, items, dict}
use theclub_api.Domain.Table.{value}
use theclub_api.Domain.Bets.{Selection, SelectionValue}
use theclub_api.World.{World}
use theclub_api.Services.Roulette.{SettledBetView, PlaceBetResult}

-- the dict of a selection
unfoldable pub selection_json : SelectionValue → Json
selection_json (SelectionValue.number n) = number n
selection_json (SelectionValue.numbers ns) = array (items (map number ns))

unfoldable pub selection_dict : Selection → Dict
selection_dict selection = dict (map (λ entry. (entry.0, selection_json entry.1)) selection)

-- `SettledBetView.to_dict`
unfoldable pub bet_to_dict : SettledBetView → Dict
bet_to_dict b = dict (
    ("bet_type", text (value b.bet_type))
    ∷ ("selection", object (selection_dict b.selection))
    ∷ ("stake_minor", number b.stake_minor)
    ∷ ("payout_minor", number b.payout_minor)
    ∷ ("won", boolean b.won)
    ∷ [])

-- `PlaceBetResult.to_dict`
unfoldable pub result_to_dict : World → PlaceBetResult → Dict
result_to_dict w r = dict (
    ("round_id", text (w.show_uuid r.round_id))
    ∷ ("outcome", number (pos r.outcome))
    ∷ ("bets", array (items (map (λ b. object (bet_to_dict b)) r.bets)))
    ∷ ("total_stake_minor", number r.total_stake_minor)
    ∷ ("total_payout_minor", number r.total_payout_minor)
    ∷ ("net_minor", number r.net_minor)
    ∷ ("balance_minor", number r.balance_minor)
    ∷ [])
