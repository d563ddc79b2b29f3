-- ===== src/Py/Json/RoundTrip.antt =====
-- `json.loads` reads back what `json.dumps` writes.
use embeded_convey_belt.Prelude.{
  ℕ, zero, suc, ◌*◌, ◌≤◌, ◌≡◌, ◌∙◌, refl, ap, true, false, [], ◌∷◌, ◌++◌, append_assoc, append-nil,
  All, arith, length, length-append, ◌==◌,
}
use embeded_convey_belt.Py.{Result, ok, Text}
use embeded_convey_belt.Py.Utf8.{IsScalar}
use embeded_convey_belt.Event.Json.{escapes, quoted}
use embeded_convey_belt.Py.Json.{
  Json, null, bool, num, real, str, arr, obj, Items, nil, item, Fields, end, field, dumps_json,
  more_items, more_fields,
}
use embeded_convey_belt.Py.Json.Loads.{
  scan_key, open_array, after_item, after_field, parse_json, parse_items, parse_fields, loads,
}
use embeded_convey_belt.Py.Json.Strings.{scan_string-quoted}
use embeded_convey_belt.Py.Json.Numbers.{IsStop, scan_number-show_int, scan_number-IsReal}
use embeded_convey_belt.Py.Json.Printed.{
  dict_onto-IsDict, IsValid, AllItems, AllFields, IsSolid, skip-IsSolid, value-show_int,
  value-IsReal, IsSolid-dumps_json, dumps_json-first,
}

-- A key with its quotes is read.
scan_key-quoted : (k rest : Text) → All IsScalar k → scan_key (quoted k ++ rest) ≡ ok (k, rest)
scan_key-quoted k rest h =
    rw (append_assoc (escapes k) (34 ∷ []) rest) (scan_string-quoted k rest h)

-- An item that is read, and what is behind it.
parse_items_step :
    (f : ℕ) (v : Json) (xs : Items) (s t rest : Text)
    → parse_json f s ≡ ok (v, t)
    → IsSolid t
    → after_item v (λ r. parse_items f r) t ≡ ok (xs, rest)
    → parse_items (suc f) s ≡ ok (xs, rest)
unfolding parse_json
parse_items_step f v xs s t rest read solid more = rw (read, skip-IsSolid t solid) more

parse_fields_step :
    (f : ℕ) (k : Text) (v : Json) (fs : Fields) (s t rest : Text)
    → All IsScalar k
    → IsSolid s
    → parse_json f s ≡ ok (v, t)
    → IsSolid t
    → after_field k v (λ r. parse_fields f r) t ≡ ok (fs, rest)
    → parse_fields (suc f) (quoted k ++ b':' ∷ s) ≡ ok (fs, rest)
unfolding parse_json
parse_fields_step f k v fs s t rest h solid read solid' more =
    rw (scan_key-quoted k (b':' ∷ s) h, skip-IsSolid s solid, read, skip-IsSolid t solid') more

IsStop-more_items :
    (xs : Items) (rest : Text) → IsStop (more_items xs ++ rest) × IsSolid (more_items xs ++ rest)
unfolding dumps_json
IsStop-more_items nil rest = (refl, refl)
IsStop-more_items (item v xs) rest = (refl, refl)

IsStop-more_fields :
    (fs : Fields) (rest : Text) → IsStop (more_fields fs ++ rest) × IsSolid (more_fields fs ++ rest)
unfolding dumps_json
IsStop-more_fields end rest = (refl, refl)
IsStop-more_fields (field k v fs) rest = (refl, refl)

two_steps : (f n : ℕ) → 2 * suc n ≤ f → (g : ℕ) × (f ≡ suc (suc g)) × (2 * n ≤ g)
two_steps zero n l = absurd (omega arith)
two_steps (suc zero) n l = absurd (omega arith)
two_steps (suc (suc g)) n l = (g, refl, omega arith)

items_read :
    (w : Json) (xs : Items) (f : ℕ) (rest : Text)
    → IsValid w
    → 2 * suc (length (dumps_json w ++ more_items xs)) ≤ f
    → ((g : ℕ)
        → 2 * length (dumps_json w) ≤ g
        → parse_json (suc g) (dumps_json w ++ (more_items xs ++ rest))
          ≡ ok (w, more_items xs ++ rest))
    → ((g : ℕ)
        → 2 * length (more_items xs) ≤ g
        → after_item w (λ r. parse_items g r) (more_items xs ++ rest) ≡ ok (item w xs, rest))
    → parse_items f (dumps_json w ++ (more_items xs ++ rest)) ≡ ok (item w xs, rest)
items_read w xs f rest h l read more =
    let (g, e, small) = two_steps f (length (dumps_json w ++ more_items xs)) l in
    let size = length-append {0} (dumps_json w) (more_items xs) in
    let t = more_items xs ++ rest in
    rw e (
      parse_items_step (suc g) w (item w xs) (dumps_json w ++ t) t rest
        (read g (omega (arith, size))) (IsStop-more_items xs rest).1
        (more (suc g) (omega (arith, size))))

fields_read :
    (k : Text) (w : Json) (fs : Fields) (f : ℕ) (rest : Text)
    → All IsScalar k
    → IsValid w
    → 2 * suc (length (dumps_json w ++ more_fields fs)) ≤ f
    → ((g : ℕ)
        → 2 * length (dumps_json w) ≤ g
        → parse_json (suc g) (dumps_json w ++ (more_fields fs ++ rest))
          ≡ ok (w, more_fields fs ++ rest))
    → ((g : ℕ)
        → 2 * length (more_fields fs) ≤ g
        → after_field k w (λ r. parse_fields g r) (more_fields fs ++ rest)
          ≡ ok (field k w fs, rest))
    → parse_fields f ((quoted k ++ b':' ∷ (dumps_json w ++ more_fields fs)) ++ rest)
      ≡ ok (field k w fs, rest)
fields_read k w fs f rest scalar h l read more =
    let (g, e, small) = two_steps f (length (dumps_json w ++ more_fields fs)) l in
    let size = length-append {0} (dumps_json w) (more_fields fs) in
    let t = more_fields fs ++ rest in
    let path : (quoted k ++ b':' ∷ (dumps_json w ++ more_fields fs)) ++ rest
        ≡ quoted k ++ b':' ∷ (dumps_json w ++ t) =
      append_assoc (quoted k) (b':' ∷ (dumps_json w ++ more_fields fs)) rest
      ∙ ap (λ (z : Text). quoted k ++ b':' ∷ z)
          (append_assoc (dumps_json w) (more_fields fs) rest) in
    rw (e, path)
      (parse_fields_step (suc g) k w (field k w fs) (dumps_json w ++ t) t rest scalar
        (IsSolid-dumps_json w t h) (read g (omega (arith, size))) (IsStop-more_fields fs rest).1
        (more (suc g) (omega (arith, size))))

open_array_lem :
    (next : Text → Result (Items × Text)) (s : Text) (xs : Items) (rest : Text)
    → ((c : ℕ) × (cs : Text) × (s ≡ c ∷ cs) × ((c == b']') ≡ false))
    → next s ≡ ok (xs, rest)
    → open_array next s ≡ ok (arr xs, rest)
open_array_lem next s xs rest (c, cs, e, other) read = rw (e, other, ← e, read) refl

longer_quoted :
    (k s : Text) (g : ℕ) → 2 * suc (length (quoted k ++ b':' ∷ s)) ≤ g → 2 * suc (length s) ≤ g
longer_quoted k s g l = omega (arith, length-append {0} (quoted k) (b':' ∷ s))

-- The fuel is given up by two at each value.
mutual
  unfolding parse_json dumps_json IsValid

  parse_json-dumps :
      (v : Json) (g : ℕ) (rest : Text)
      → IsValid v
      → IsStop rest
      → 2 * length (dumps_json v) ≤ g
      → parse_json (suc g) (dumps_json v ++ rest) ≡ ok (v, rest)
  parse_json-dumps null g rest h s l = refl
  parse_json-dumps (bool true) g rest h s l = refl
  parse_json-dumps (bool false) g rest h s l = refl
  parse_json-dumps (num z) g rest h s l =
      (value-show_int (λ r. parse_items g r) (λ r. parse_fields g r) z rest).0
      ∙ scan_number-show_int z rest s
  parse_json-dumps (real r) g rest h s l =
      (value-IsReal (λ t. parse_items g t) (λ t. parse_fields g t) r rest h).0
      ∙ scan_number-IsReal r rest h s
  parse_json-dumps (str t) g rest h s l =
      rw (append_assoc (escapes t) (34 ∷ []) rest, scan_string-quoted t rest h) refl
  parse_json-dumps (arr nil) g rest h s l = refl
  parse_json-dumps (arr (item v xs)) g rest h s l =
      let t = more_items xs ++ rest in
      rw
        (
          append_assoc (dumps_json v) (more_items xs) rest,
          skip-IsSolid (dumps_json v ++ t) (IsSolid-dumps_json v t h.0),
        )
        (open_array_lem (λ r. parse_items g r) (dumps_json v ++ t) (item v xs) rest
          (dumps_json-first v t h.0)
          (items_read v xs g rest h.0 l
            (λ n small. parse_json-dumps v n t h.0 (IsStop-more_items xs rest).0 small)
            (λ n small. after_item-dumps xs n v rest h.1 small)))
  parse_json-dumps (obj end) g rest h s l = refl
  parse_json-dumps (obj (field k v fs)) g rest h s l =
      rw
        (
          fields_read k v fs g rest h.1.0 h.1.1
              (longer_quoted k (dumps_json v ++ more_fields fs) g l)
              (λ n small.
                parse_json-dumps v n (more_fields fs ++ rest) h.1.1 (IsStop-more_fields fs rest).0
                  small)
              (λ n small. after_field-dumps fs n k v rest h.1.2 small),
          dict_onto-IsDict end (field k v fs) h.0 (λ j there. refl),
        )
        refl

  after_item-dumps :
      (xs : Items) (f : ℕ) (v : Json) (rest : Text)
      → AllItems xs
      → 2 * length (more_items xs) ≤ f
      → after_item v (λ r. parse_items f r) (more_items xs ++ rest) ≡ ok (item v xs, rest)
  after_item-dumps nil f v rest h l = refl
  after_item-dumps (item w xs) f v rest h l =
      let t = more_items xs ++ rest in
      rw
        (
          append_assoc (dumps_json w) (more_items xs) rest,
          skip-IsSolid (dumps_json w ++ t) (IsSolid-dumps_json w t h.0),
          items_read w xs f rest h.0 l
              (λ n small. parse_json-dumps w n t h.0 (IsStop-more_items xs rest).0 small)
              (λ n small. after_item-dumps xs n w rest h.1 small),
        )
        refl

  after_field-dumps :
      (fs : Fields) (f : ℕ) (k : Text) (v : Json) (rest : Text)
      → AllFields fs
      → 2 * length (more_fields fs) ≤ f
      → after_field k v (λ r. parse_fields f r) (more_fields fs ++ rest) ≡ ok (field k v fs, rest)
  after_field-dumps end f k v rest h l = refl
  after_field-dumps (field j w fs) f k v rest h l =
      rw
        (fields_read j w fs f rest h.0 h.1 (longer_quoted j (dumps_json w ++ more_fields fs) f l)
          (λ n small.
            parse_json-dumps w n (more_fields fs ++ rest) h.1 (IsStop-more_fields fs rest).0 small)
          (λ n small. after_field-dumps fs n j w rest h.2 small))
        refl

-- A valid value, printed by `json.dumps`, is read back by `json.loads` whole: every escape, the
-- numbers, and the nested arrays and objects with their keys in order, and the fuel is enough.
pub loads-dumps : (v : Json) → IsValid v → loads (dumps_json v) ≡ ok v
unfolding loads
loads-dumps v h =
    let plain : dumps_json v ++ [] ≡ dumps_json v = append-nil (dumps_json v) in
    let solid : IsSolid (dumps_json v) = rw (← plain) (IsSolid-dumps_json v [] h) in
    let read : parse_json (suc (2 * length (dumps_json v))) (dumps_json v) ≡ ok (v, []) =
      rw plain at (parse_json-dumps v (2 * length (dumps_json v)) [] h tt (omega arith)) in
    rw (skip-IsSolid (dumps_json v) solid, read) refl
