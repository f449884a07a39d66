-- ===== src/Api/Pagination.antt =====
-- app/api/pagination.py: the cursor of a page. `base64` and the texts of times and ids are parameters.
pub mod Cursor
pub mod Complete
use text.Mathlib.Text.{◌==◌ as str_eq}
use Prim.Native.String.{[] as empty_str, ◌∷◌ as cons_str, ◌++◌ as append_str}
use Prim.Native.Char.{code}
use theclub_api.Prelude.{
  ℕ, String, ◌==◌, Bool, true, false, ◌||◌, Option, none, some, List, [], ◌∷◌, length,
  if◌then◌else◌,
}
use mathlib.Core.Option
use theclub_api.Result.{Result, ok, err, invalid_cursor, or_raise, ◌>>=◌}
use theclub_api.World.{World}
use theclub_api.Repositories.Listing.{Place}

-- `isoformat` and `fromisoformat` of a time, `urlsafe_b64encode` and `urlsafe_b64decode` of a text, with
-- no value where Python raises ValueError or UnicodeDecodeError.
pub record Codec : Type 0 where
  pub isoformat : ℕ → String
  pub fromisoformat : String → Option ℕ
  pub b64encode : String → String
  pub b64decode : String → Option String

unfoldable pub has_bar : String → Bool
has_bar empty_str = false
has_bar (cons_str c s) = let rest = has_bar s in code c == 124 || rest

abbrev pub add_char : Prim.Native.Char.Char → Option (String × String) → Option (String × String)
add_char c none = none
add_char c (some (a, b)) = some (cons_str c a, b)

-- `a, b = raw.split("|")`: there must be one bar
unfoldable pub split_two : String → Option (String × String)
split_two empty_str = none
split_two (cons_str c s) =
    let rest = split_two s in
    if code c == 124 then (if has_bar s then none else some (empty_str, s)) else add_char c rest

abbrev pub last_of : {A : Type 0} → List A → Option A
last_of [] = none
last_of (x ∷ []) = some x
last_of (x ∷ y ∷ xs) = last_of (y ∷ xs)

module _ (w : World) (codec : Codec) where
  -- `encode_cursor`
  unfoldable pub encode_cursor : Place → String
  encode_cursor (created_at, item_id) =
      codec.b64encode
        (append_str (codec.isoformat created_at) (append_str "|" (w.show_uuid item_id)))

  -- `decode_cursor`
  unfoldable pub decode_cursor : String → Result Place
  decode_cursor cursor = do
    raw ← or_raise (codec.b64decode cursor) invalid_cursor
    parts ← or_raise (split_two raw) invalid_cursor
    created_at ← or_raise (codec.fromisoformat parts.0) invalid_cursor
    item_id ← or_raise (w.parse_uuid parts.1) invalid_cursor
    ok (created_at, item_id)

  -- `decode_cursor(cursor) if cursor else None`
  unfoldable pub decode_optional : Option String → Result (Option Place)
  decode_optional none = ok none
  decode_optional (some cursor) =
      if str_eq cursor "" then ok none else (do place ← decode_cursor cursor; ok (some place))

  -- `encode_cursor(…[-1]…) if len(…) == limit else None`; a limit is at least 1
  unfoldable pub next_cursor : {A : Type 0} → (A → Place) → ℕ → List A → Option String
  next_cursor place limit rows =
      if length rows == limit
      then Option.map (λ x. encode_cursor (place x)) (last_of rows)
      else none
