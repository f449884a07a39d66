-- ===== src/Api/Pagination/Complete.antt =====
-- A client that follows the cursors reads a whole history, in order and without repetition.
use theclub_api.Prelude.{
  ℕ, zero, suc, ◌≡◌, ◌<◌, refl, sym, ap, ◌∙◌, arith, ◌==◌, String, true, false, length, map, take,
  length-append, Option, none, some, List, [], ◌∷◌, ◌++◌,
}
use mathlib.Core.List.{append_assoc}
use mathlib.Core.Option
use theclub_api.Result
use theclub_api.Result.{Result, ok, err, out_of_fuel}
use theclub_api.World.{World}
use theclub_api.Repositories.Listing.{Place, order_desc, page}
use theclub_api.Repositories.Listing.Sorted.{IsApart}
use theclub_api.Repositories.Listing.Pages.{short, full, cut_page, page_after}
use theclub_api.Api.Pagination.{Codec, encode_cursor, decode_optional, last_of, next_cursor}
use theclub_api.Api.Pagination.Cursor.{CodecLaws, decode_optional-encode_cursor}

-- What a client does with `fetch`: from a cursor on, read pages up to one without a next cursor.
abbrev pub go_on :
    {A : Type 0} → (Option String → Result (List A)) → List A × Option String → Result (List A)
go_on more (items, none) = ok items
go_on more (items, some cursor) = Result.◌>>=◌ (more (some cursor)) λ rest. ok (items ++ rest)

unfoldable pub read_all :
    {A : Type 0}
    → (Option String → Result (List A × Option String))
    → ℕ
    → Option String
    → Result (List A)
read_all fetch zero cursor = err out_of_fuel
read_all fetch (suc fuel) cursor =
    let more = read_all fetch fuel in Result.◌>>=◌ (fetch cursor) (go_on more)

last_of-append : {A : Type 0} (xs : List A) (x : A) → last_of (xs ++ x ∷ []) ≡ some x
last_of-append [] x = refl
last_of-append (y ∷ []) x = refl
last_of-append (y ∷ z ∷ xs) x = last_of-append (z ∷ xs) x

map_append : {A B : Type 0} (f : A → B) (xs ys : List A) → map f (xs ++ ys) ≡ map f xs ++ map f ys
map_append f [] ys = refl
map_append f (x ∷ xs) ys = ap (λ r. f x ∷ r) (map_append f xs ys)

module _ (w : World) (codec : Codec) (laws : CodecLaws w codec) {A B : Type 0} (place : A → Place)
    (f : A → B) (m : ℕ) (rows : List A) (apart : IsApart place rows) where
  -- A page of a history whose rows are `rows`, with a limit of `suc m`.
  abbrev answer : List A → List B × Option String
  answer entries = (map f entries, next_cursor w codec place (suc m) entries)

  abbrev pub fetch_page : Option String → Result (List B × Option String)
  fetch_page cursor =
      Result.◌>>=◌ (decode_optional w codec cursor) λ c. ok (answer (page place c (suc m) rows))

  fetch_page-rest :
      (cursor : Option String) (c : Option Place) (rest : List A)
      → decode_optional w codec cursor ≡ ok c
      → page place c (suc m) rows ≡ take (suc m) rest
      → fetch_page cursor ≡ ok (answer (take (suc m) rest))
  fetch_page-rest cursor c rest e k =
      ap (λ d. Result.◌>>=◌ d λ p. ok (answer (page place p (suc m) rows))) e
      ∙ ap (λ entries. ok (answer entries)) k

  answer-short :
      (rest : List A)
      → (length (take (suc m) rest) == suc m) ≡ false
      → take (suc m) rest ≡ rest
      → answer (take (suc m) rest) ≡ (map f rest, none)
  unfolding next_cursor
  answer-short rest few all = rw few (λ i. (map f (all i), none))

  answer-full :
      (rest before : List A) (last : A)
      → (length (take (suc m) rest) == suc m) ≡ true
      → take (suc m) rest ≡ before ++ last ∷ []
      → answer (take (suc m) rest)
        ≡ (map f (before ++ last ∷ []), some (encode_cursor w codec (place last)))
  unfolding next_cursor
  answer-full rest before last many here = rw many (
      ap (λ r. (map f r, Option.map (λ x. encode_cursor w codec (place x)) (last_of r))) here
      ∙ ap (λ l. (map f (before ++ last ∷ []), Option.map (λ x. encode_cursor w codec (place x)) l))
          (last_of-append before last))

  pub read_rest :
      (fuel : ℕ) (cursor : Option String) (c : Option Place) (xs rest : List A)
      → decode_optional w codec cursor ≡ ok c
      → page place c (suc m) rows ≡ take (suc m) rest
      → order_desc place rows ≡ xs ++ rest
      → length rest < fuel
      → read_all fetch_page fuel cursor ≡ ok (map f rest)
  unfolding read_all
  read_rest zero cursor c xs rest e k o h = absurd (omega arith)
  read_rest (suc fuel) cursor c xs rest e k o h =
      let more = read_all fetch_page fuel in
      let fetched = fetch_page-rest cursor c rest e k in
      ap (λ r. Result.◌>>=◌ r (go_on more)) fetched ∙ elim (cut_page m rest) [
        | short few all ↦ ap (go_on more) (answer-short rest few all)
        | full before last after many here there ↦
            let place_in : order_desc place rows ≡ (xs ++ before) ++ last ∷ after =
              o ∙ ap (λ r. xs ++ r) there ∙ sym (append_assoc xs before (last ∷ after)) in
            let smaller : length after < fuel =
              let size = ap length there ∙ length-append before (last ∷ after) in omega arith in
            ap (go_on more) (answer-full rest before last many here)
            ∙ ap (λ r. Result.◌>>=◌ r λ others. ok (map f (before ++ last ∷ []) ++ others))
                (read_rest fuel (some (encode_cursor w codec (place last))) (some (place last))
                  ((xs ++ before) ++ last ∷ []) after
                  (decode_optional-encode_cursor w codec laws (place last))
                  (page_after place (suc m) rows apart (xs ++ before) last after place_in)
                  (place_in ∙ sym (append_assoc (xs ++ before) (last ∷ []) after)) smaller)
            ∙ ap ok (
                sym (map_append f (before ++ last ∷ []) after)
                ∙ ap (map f) (append_assoc before (last ∷ []) after ∙ sym there))
      ]
