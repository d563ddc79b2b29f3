-- ===== src/Py/Json/Loads.antt =====
-- `json.loads` of a `str`. (The interpreter's limit on nesting is not in the model.)
use embeded_convey_belt.Prelude.{
  ℕ, zero, suc, ◌*◌, true, false, ◌||◌, [], ◌∷◌, length, drop, ◌==◌, if◌then◌else◌,
}
use embeded_convey_belt.Py.{Result, ok, err, json_decode_error, stuck, Text, text, ◌>>=◌}
use embeded_convey_belt.Py.Str.{starts_with}
use embeded_convey_belt.Py.Json.{
  Json, null, bool, real, str, arr, obj, Items, nil, item, Fields, end, field, set_field,
}
use embeded_convey_belt.Py.Json.Scan.{scan_string, scan_number}

-- [ \t\n\r]*
abbrev pub skip : Text → Text
skip [] = []
skip (c ∷ cs) =
    let rest = skip cs in if c == 32 || c == 9 || c == 10 || c == 13 then rest else c ∷ cs

-- A dictionary keeps the last value of a key, at the place of its first.
abbrev pub dict_onto : Fields → Fields → Fields
dict_onto d end = d
dict_onto d (field k v fs) = dict_onto (set_field k v d) fs

abbrev pub constant : Text → Json → Text → Result (Json × Text) → Result (Json × Text)
constant name value s other = if starts_with s name then ok (value, drop (length name) s) else other

-- What is neither a string nor an object nor an array.
abbrev pub scan_plain : Text → Result (Json × Text)
scan_plain s = constant (text "null") null s (
    constant (text "true") (bool true) s (
      constant (text "false") (bool false) s (
        constant (text "NaN") (real (text "NaN")) s (
          constant (text "Infinity") (real (text "Infinity")) s
            (constant (text "-Infinity") (real (text "-Infinity")) s (scan_number s))))))

-- Behind an item, and behind the opening bracket of an array.
abbrev pub after_item : Json → (Text → Result (Items × Text)) → Text → Result (Items × Text)
after_item v next [] = err json_decode_error
after_item v next (c ∷ cs) =
    if c == b','
    then (do (xs, rest) ← next (skip cs); ok (item v xs, rest))
    else if c == b']'
    then ok (item v nil, cs)
    else err json_decode_error

abbrev pub open_array : (Text → Result (Items × Text)) → Text → Result (Json × Text)
open_array next [] = err json_decode_error
open_array next (c ∷ cs) =
    if c == b']' then ok (arr nil, cs) else (do (xs, rest) ← next (c ∷ cs); ok (arr xs, rest))

-- Behind a field, at a key, and behind the opening brace of an object.
abbrev pub after_field :
    Text → Json → (Text → Result (Fields × Text)) → Text → Result (Fields × Text)
after_field k v next [] = err json_decode_error
after_field k v next (c ∷ cs) =
    if c == b','
    then (do (fs, rest) ← next (skip cs); ok (field k v fs, rest))
    else if c == b'}'
    then ok (field k v end, cs)
    else err json_decode_error

abbrev pub scan_colon : Text → Result Text
scan_colon [] = err json_decode_error
scan_colon (c ∷ cs) = if c == b':' then ok (skip cs) else err json_decode_error

abbrev pub scan_key : Text → Result (Text × Text)
scan_key [] = err json_decode_error
scan_key (c ∷ cs) = if c == 34 then scan_string (suc (length cs)) cs else err json_decode_error

abbrev pub open_object : (Text → Result (Fields × Text)) → Text → Result (Json × Text)
open_object next [] = err json_decode_error
open_object next (c ∷ cs) =
    if c == b'}'
    then ok (obj end, cs)
    else (do (fs, rest) ← next (c ∷ cs); ok (obj (dict_onto end fs), rest))

abbrev pub scan_value :
    (Text → Result (Items × Text)) → (Text → Result (Fields × Text)) → Text → Result (Json × Text)
scan_value items fields [] = err json_decode_error
scan_value items fields (c ∷ cs) =
    if c == 34
    then (do (s, rest) ← scan_string (suc (length cs)) cs; ok (str s, rest))
    else if c == b'['
    then open_array items (skip cs)
    else if c == b'{'
    then open_object fields (skip cs)
    else scan_plain (c ∷ cs)

unfoldable mutual
  pub parse_json : ℕ → Text → Result (Json × Text)
  parse_json zero s = err stuck
  parse_json (suc fuel) s = scan_value (λ r. parse_items fuel r) (λ r. parse_fields fuel r) s

  pub parse_items : ℕ → Text → Result (Items × Text)
  parse_items zero s = err stuck
  parse_items (suc fuel) s = do
    (v, rest) ← parse_json fuel s
    after_item v (λ r. parse_items fuel r) (skip rest)

  pub parse_fields : ℕ → Text → Result (Fields × Text)
  parse_fields zero s = err stuck
  parse_fields (suc fuel) s = do
    (k, s₁) ← scan_key s
    s₂ ← scan_colon (skip s₁)
    (v, rest) ← parse_json fuel s₂
    after_field k v (λ r. parse_fields fuel r) (skip rest)

-- Nothing but blanks may follow the value.
abbrev pub whole_text : Json × Text → Result Json
whole_text (v, rest) = elim (skip rest) [ [] ↦ ok v | c ∷ cs ↦ err json_decode_error ]

-- Two calls within each other have taken one character at least.
unfoldable pub loads : Text → Result Json
loads s = do found ← parse_json (suc (2 * length s)) (skip s); whole_text found
