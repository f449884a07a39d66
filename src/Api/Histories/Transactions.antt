-- ===== src/Api/Histories/Transactions.antt =====
-- GET /wallet/transactions, followed from page to page.
use theclub_api.Prelude.{
  ℕ, suc, ◌≤◌, ◌≡◌, refl, ap, ◌∙◌, arith, ◌==◌, String, keep, length, map, Option, none, some, List,
  [],
}
use theclub_api.Result
use theclub_api.Result.{Result, ok, err}
use theclub_api.Exec.{pure, continue, ◌>>=◌}
use theclub_api.Db.{Db, Wallet, LedgerEntry}
use theclub_api.World.{World}
use theclub_api.Repositories.Wallets.{get_by_user_id}
use theclub_api.Repositories.Listing.{Place, entry_place, order_desc, page, list_by_wallet}
use theclub_api.Repositories.Listing.Sorted.{IsApart}
use theclub_api.Services.Wallet.{require_wallet, list_transactions}
use theclub_api.Api.Pagination.{Codec, decode_optional, next_cursor}
use theclub_api.Api.Pagination.Cursor.{CodecLaws}
use theclub_api.Api.Pagination.Complete.{read_all, fetch_page, read_rest}
use theclub_api.Repositories.Listing.Pages.{page_first, length-order_desc}
use theclub_api.Api.Histories.{
  Page, TransactionItem, transaction_item, check_limit, list_transactions_route,
}

-- the entries of a wallet
abbrev pub entries_of : ℕ → Db → List LedgerEntry
entries_of wallet_id db = keep (λ e. e.wallet_id == wallet_id) db.ledger

abbrev pub parts : {A : Type 0} → Result (Page A) → Result (List A × Option String)
parts r = Result.◌>>=◌ r λ p. ok (p.items, p.next_cursor)

module _ (w : World) (codec : Codec) (user_id m : ℕ) (db : Db) where
  -- A page as a client gets it, where no other request comes between.
  abbrev pub fetch_transactions : Option String → Result (List TransactionItem × Option String)
  fetch_transactions cursor = parts (list_transactions_route w codec user_id cursor (suc m) db).0

  limit_ok : suc m ≤ 100 → check_limit (suc m) ≡ ok tt
  unfolding check_limit
  limit_ok h = ground arith

  module _ (wallet : ℕ × Wallet) (found : get_by_user_id user_id db ≡ (ok (some wallet), db)) where
    entries_page :
        (c : Option Place)
        → list_transactions user_id c (suc m) db
          ≡ (ok (page entry_place c (suc m) (entries_of wallet.0 db)), db)
    unfolding list_transactions require_wallet list_by_wallet ◌>>=◌
    entries_page c = rw found refl

    from_decoded :
        (decoded : Result (Option Place))
        → parts
            (continue
              (decoded, db)
              λ c. list_transactions user_id c (suc m) >>= λ entries. pure (record {
                items = map transaction_item entries;
                next_cursor = next_cursor w codec entry_place (suc m) entries;
              })).0
          ≡ Result.◌>>=◌ decoded λ c.
            let entries = page entry_place c (suc m) (entries_of wallet.0 db) in
            ok (map transaction_item entries, next_cursor w codec entry_place (suc m) entries)
    unfolding ◌>>=◌
    from_decoded (ok c) = rw (entries_page c) refl
    from_decoded (err e) = refl

    same_fetch :
        (laws : CodecLaws w codec) (apart : IsApart entry_place (entries_of wallet.0 db))
        → suc m ≤ 100
        → (cursor : Option String)
        → fetch_transactions cursor
          ≡ fetch_page w codec laws entry_place transaction_item m
              (entries_of wallet.0 db)
              apart
              cursor
    unfolding list_transactions_route ◌>>=◌
    same_fetch laws apart h cursor = rw (limit_ok h) (from_decoded (decode_optional w codec cursor))

    -- A client that follows the next cursors from the first page on, with a limit from 1 to 100, gets
    -- every entry of the wallet once, newest first, if no two entries of the wallet have the same time
    -- and id and none is added in between. As many pages as there are entries, and one, are enough.
    pub list_transactions_complete :
        CodecLaws w codec
        → suc m ≤ 100
        → IsApart entry_place (entries_of wallet.0 db)
        → read_all fetch_transactions (suc (length (entries_of wallet.0 db))) none
          ≡ ok (map transaction_item (order_desc entry_place (entries_of wallet.0 db)))
    unfolding decode_optional
    list_transactions_complete laws h apart =
        let rows = entries_of wallet.0 db in
        ap (λ fetch. read_all fetch (suc (length rows)) none)
          (λ i cursor. same_fetch laws apart h cursor i)
        ∙ read_rest w codec laws entry_place transaction_item m rows apart (suc (length rows)) none
            none [] (order_desc entry_place rows) refl (page_first entry_place (suc m) rows apart)
            refl (let size = length-order_desc entry_place rows in omega arith)
