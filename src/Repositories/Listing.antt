-- ===== src/Repositories/Listing.antt =====
-- app/repositories/ledger.py, `list_by_wallet`, and app/repositories/rounds.py, `list_by_user`: the pages
-- of a history, newest first. A row's place is its time and its id; the order of two ids is that of
-- their numbers.
pub mod Sorted
pub mod Pages
use theclub_api.Prelude.{
  ℕ, zero, suc, ◌==◌, Bool, true, ◌&&◌, ◌||◌, ltb, keep, take, Option, none, some, List, [], ◌∷◌,
  if◌then◌else◌,
}
use theclub_api.Result.{ok}
use theclub_api.Exec.{Exec}
use theclub_api.Rows.{Table, select}
use theclub_api.Db.{Db, LedgerEntry, Round, Bet}

-- `created_at` and `id`
abbrev pub Place : Type 0
Place = ℕ × ℕ

-- `(created_at < c) | ((created_at == c) & (id < i))`
abbrev pub is_before : Place → Place → Bool
is_before cursor row = ltb row.0 cursor.0 || (row.0 == cursor.0 && ltb row.1 cursor.1)

module _ {A : Type 0} (place : A → Place) where
  -- `ORDER BY created_at DESC, id DESC`
  unfoldable pub insert_desc : A → List A → List A
  insert_desc x [] = x ∷ []
  insert_desc x (y ∷ ys) =
      let rest = insert_desc x ys in if is_before (place x) (place y) then x ∷ y ∷ ys else y ∷ rest

  unfoldable pub order_desc : List A → List A
  order_desc [] = []
  order_desc (x ∷ xs) = insert_desc x (order_desc xs)

  abbrev pub is_after_cursor : Option Place → A → Bool
  is_after_cursor none x = true
  is_after_cursor (some cursor) x = is_before cursor (place x)

module _ {A : Type 0} (place : A → Place) where
  -- The page of `limit` rows after the cursor.
  unfoldable pub page : Option Place → ℕ → List A → List A
  page cursor limit rows = take limit (order_desc place (keep (is_after_cursor place cursor) rows))

abbrev pub entry_place : LedgerEntry → Place
entry_place entry = (entry.created_at, entry.id)

-- `LedgerRepository.list_by_wallet`
unfoldable pub list_by_wallet : ℕ → Option Place → ℕ → Exec Db (List LedgerEntry)
list_by_wallet wallet_id cursor limit db =
    (ok (page entry_place cursor limit (keep (λ e. e.wallet_id == wallet_id) db.ledger)), db)

abbrev pub round_place : ℕ × Round → Place
round_place row = (row.1.created_at, row.0)

-- `RoundRepository.list_by_user`
unfoldable pub list_by_user : ℕ → Option Place → ℕ → Exec Db (Table Round)
list_by_user user_id cursor limit db =
    (ok (page round_place cursor limit (select (λ r. r.user_id == user_id) db.rounds)), db)

-- `selectinload(Round.bets)`: the bets of a round
abbrev pub bets_of : ℕ → Db → Table Bet
bets_of round_id db = select (λ b. b.round_id == round_id) db.bets
