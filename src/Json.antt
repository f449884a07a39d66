-- ===== src/Json.antt =====
-- The JSON documents that the program stores and sends: `dict[str, Any]` and what it holds.
use package.text.Mathlib.Text.{◌==◌ as str_eq}
use package.text.Mathlib.TextEquality.{eq_iff}
use theclub_api.Prelude.{
  String, Bool, ◌≡◌, refl, arith, Option, none, some, List, [], ◌∷◌, ℤ, if◌then◌else◌,
}

mutual
  pub data Json : Type 0 where
    null : Json
    boolean : Bool → Json
    number : ℤ → Json
    text : String → Json
    array : Items → Json
    object : Dict → Json

  pub data Items : Type 0 where
    no_items : Items
    item : Json → Items → Items

  -- a dict, in insertion order
  pub data Dict : Type 0 where
    empty : Dict
    entry : String → Json → Dict → Dict

unfoldable pub items : List Json → Items
items [] = no_items
items (j ∷ js) = item j (items js)

unfoldable pub dict : List (String × Json) → Dict
dict [] = empty
dict ((k, j) ∷ rest) = entry k j (dict rest)

-- `d[key] = value`: in place where the key is there, else at the end
unfoldable pub set_key : String → Json → Dict → Dict
set_key key value empty = entry key value empty
set_key key value (entry k j rest) =
    let later = set_key key value rest in
    if str_eq k key then entry k value rest else entry k j later

-- `{**first, **second}`
unfoldable pub merge : Dict → Dict → Dict
merge first empty = first
merge first (entry k j rest) = merge (set_key k j first) rest

-- `d.get(key)`
unfoldable pub get_key : String → Dict → Option Json
get_key key empty = none
get_key key (entry k j rest) = if str_eq k key then some j else get_key key rest

-- What was set is read, and other keys are read as before.
pub get_key-set_key :
    (j k : String) (v : Json) (d : Dict)
    → get_key j (set_key k v d) ≡ (if str_eq k j then some v else get_key j d)
unfolding get_key set_key
get_key-set_key j k v empty = refl
get_key-set_key j k v (entry i w rest) =
    ground (arith, eq_iff k j, eq_iff i k, eq_iff i j, get_key-set_key j k v rest)
