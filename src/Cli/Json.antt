-- ===== src/Cli/Json.antt =====
-- The values of the crate serde_json, as the command-line client builds and reads them.
use Prim.Native.String.{String}
use winterwallet.Prelude.{
  ℕ, zero, suc, Bool, true, false, Option, none, some, List, [], ◌∷◌, if◌then◌else◌,
}
use winterwallet.Bytes.{Bytes, bytes_eq}
use winterwallet.Common.{ascii}

-- `Value`. A number is a u64, or another number by its text. A map's fields have different keys.
mutual
  pub data Json : Type 0 where
    null : Json
    boolean : Bool → Json
    number : ℕ → Json
    other_number : Bytes → Json
    string : Bytes → Json
    array : Items → Json
    object : Fields → Json

  pub data Items : Type 0 where
    no_items : Items
    item : Json → Items → Items

  pub data Fields : Type 0 where
    no_fields : Fields
    field : Bytes → Json → Fields → Fields

unfoldable pub items_of : List Json → Items
items_of [] = no_items
items_of (v ∷ vs) = item v (items_of vs)

unfoldable pub fields_of : List (String × Json) → Fields
fields_of [] = no_fields
fields_of ((key, v) ∷ rest) = field (ascii key) v (fields_of rest)

-- `json!([..])` and `json!({..})`
unfoldable pub list : List Json → Json
list vs = array (items_of vs)

unfoldable pub map_of : List (String × Json) → Json
map_of fields = object (fields_of fields)

-- `json!` of an Option
unfoldable pub optional : Option Json → Json
optional none = null
optional (some v) = v

unfoldable pub lookup : Bytes → Fields → Option Json
lookup key no_fields = none
lookup key (field k v rest) =
    let found = lookup key rest in if bytes_eq k key then some v else found

unfoldable pub nth : ℕ → Items → Option Json
nth i no_items = none
nth zero (item v rest) = some v
nth (suc i) (item v rest) = nth i rest

-- `get(key)`
unfoldable pub get : String → Json → Option Json
get key (object fields) = lookup (ascii key) fields
get key _ = none

-- `v[key]` and `v[i]`, null where there is nothing.
unfoldable pub at_key : Json → String → Json
at_key v key = optional (get key v)

unfoldable pub at_index : Json → ℕ → Json
at_index (array items) i = optional (nth i items)
at_index _ i = null

unfoldable pub as_str : Json → Option Bytes
as_str (string s) = some s
as_str _ = none

unfoldable pub as_u64 : Json → Option ℕ
as_u64 (number n) = some n
as_u64 _ = none

unfoldable pub is_null : Json → Bool
is_null null = true
is_null _ = false

unfoldable pub is_object : Json → Bool
is_object (object _) = true
is_object _ = false

-- `iter().filter_map(|v| v.as_str())`
unfoldable pub strings : Items → List Bytes
strings no_items = []
strings (item (string s) rest) = s ∷ strings rest
strings (item _ rest) = strings rest
