-- ===== src/Py/Json.antt =====
-- The values of the `json` module, and `json.dumps(v, separators=(",", ":"))`.
pub mod Scan
pub mod Loads
pub mod Strings
pub mod Numbers
pub mod Printed
pub mod RoundTrip
pub mod Ends
pub mod Total
use embeded_convey_belt.Prelude.{
  ℕ, Bool, true, false, Option, none, some, List, [], ◌∷◌, ◌++◌, if◌then◌else◌,
}
use embeded_convey_belt.Py.{Text, text}
use embeded_convey_belt.Py.Int.{ℤ, show_int}
use embeded_convey_belt.Py.Str.{text_eq}
use embeded_convey_belt.Event.Json.{quoted}

-- A float is kept by its decimal form. The lists inside an array and an object stand in the block.
mutual
  pub data Json : Type 0 where
    null : Json
    bool : Bool → Json
    num : ℤ → Json
    real str : Text → Json
    arr : Items → Json
    obj : Fields → Json

  pub data Items : Type 0 where
    nil : Items
    item : Json → Items → Items

  pub data Fields : Type 0 where
    end : Fields
    field : Text → Json → Fields → Fields

-- d.get(k)
abbrev pub lookup : Text → Fields → Option Json
lookup k end = none
lookup k (field j v fs) = if text_eq j k then some v else lookup k fs

-- d[k] = v
abbrev pub set_field : Text → Json → Fields → Fields
set_field k v end = field k v end
set_field k v (field j w fs) =
    let rest = set_field k v fs in if text_eq j k then field j v fs else field j w rest

-- The text behind the first item, or behind the first field, holds the closing bracket.
unfoldable mutual
  pub dumps_json : Json → Text
  dumps_json null = text "null"
  dumps_json (bool true) = text "true"
  dumps_json (bool false) = text "false"
  dumps_json (num z) = show_int z
  dumps_json (real r) = r
  dumps_json (str s) = quoted s
  dumps_json (arr nil) = text "[]"
  dumps_json (arr (item v xs)) = b'[' ∷ (dumps_json v ++ more_items xs)
  dumps_json (obj end) = text "{}"
  dumps_json (obj (field k v fs)) = b'{' ∷ (quoted k ++ (b':' ∷ (dumps_json v ++ more_fields fs)))

  pub more_items : Items → Text
  more_items nil = b']' ∷ []
  more_items (item v xs) = b',' ∷ (dumps_json v ++ more_items xs)

  pub more_fields : Fields → Text
  more_fields end = b'}' ∷ []
  more_fields (field k v fs) = b',' ∷ (quoted k ++ (b':' ∷ (dumps_json v ++ more_fields fs)))
