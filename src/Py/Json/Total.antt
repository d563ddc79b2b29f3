-- ===== src/Py/Json/Total.antt =====
-- `json.loads` ends on every text.
use embeded_convey_belt.Prelude.{
  ℕ, zero, suc, ◌*◌, ◌≤◌, ◌<◌, true, false, ◌||◌, [], ◌∷◌, length, length-drop, ◌==◌, Bool-cases,
  inl, inr, arith,
}
use embeded_convey_belt.Py.{Result, ok, err, json_decode_error, timeout, stuck, Text, text, ◌>>=◌}
use embeded_convey_belt.Py.Plain.{IsPlain}
use embeded_convey_belt.Py.Str.{starts_with}
use embeded_convey_belt.Py.Json.{Json, null, bool, real, Items, Fields}
use embeded_convey_belt.Py.Json.Scan.{scan_string}
use embeded_convey_belt.Py.Json.Loads.{
  skip, constant, scan_plain, after_item, open_array, after_field, scan_colon, scan_key,
  open_object, scan_value, parse_json, parse_items, parse_fields, whole_text, loads,
}
use embeded_convey_belt.Py.Json.Ends.{Ends, Ends-le, Ends-bind, scan_string-Ends, scan_number-Ends}

skip-shorter : (s : Text) → length (skip s) ≤ length s
skip-shorter [] = omega arith
skip-shorter (c ∷ cs) = elim (Bool-cases (c == 32 || c == 9 || c == 10 || c == 13)) [
  | inl blank ↦ rw blank (omega (arith, skip-shorter cs))
  | inr other ↦ rw other (omega arith)
]

constant-Ends :
    (name : Text) (value : Json) (s : Text) (other : Result (Json × Text))
    → 0 < length name
    → 0 < length s
    → Ends (length s) other
    → Ends (length s) (constant name value s other)
constant-Ends name value s other some_name some_text h = elim (Bool-cases (starts_with s name)) [
  | inl there ↦ rw there (omega (arith, length-drop {0} (length name) s))
  | inr absent ↦ rw absent h
]

scan_plain-Ends : (s : Text) → 0 < length s → Ends (length s) (scan_plain s)
scan_plain-Ends s h = constant-Ends (text "null") null s _ (omega arith) h (
    constant-Ends (text "true") (bool true) s _ (omega arith) h (
      constant-Ends (text "false") (bool false) s _ (omega arith) h (
        constant-Ends (text "NaN") (real (text "NaN")) s _ (omega arith) h (
          constant-Ends (text "Infinity") (real (text "Infinity")) s _ (omega arith) h (
            constant-Ends (text "-Infinity") (real (text "-Infinity")) s _ (omega arith) h
              (scan_number-Ends s))))))

module _ (n : ℕ) (next : Text → Result (Items × Text))
    (ends : (s : Text) → length s < n → Ends n (next s)) where
  pub after_item-Ends : (v : Json) (s : Text) → length s ≤ n → Ends n (after_item v next s)
  after_item-Ends v [] h = tt
  after_item-Ends v (c ∷ cs) h = elim (Bool-cases (c == b',')) [
    | inl more ↦ rw more (
        Ends-bind n _ (λ xs rest l. l) (next (skip cs))
          (ends (skip cs) (omega (arith, skip-shorter cs))))
    | inr other ↦ elim (Bool-cases (c == b']')) [
      | inl closed ↦ rw (other, closed) (omega arith)
      | inr wrong ↦ rw (other, wrong) tt
    ]
  ]

  pub open_array-Ends : (s : Text) → length s < n → Ends n (open_array next s)
  open_array-Ends [] h = tt
  open_array-Ends (c ∷ cs) h = elim (Bool-cases (c == b']')) [
    | inl closed ↦ rw closed (omega arith)
    | inr other ↦ rw other (Ends-bind n _ (λ xs rest l. l) (next (c ∷ cs)) (ends (c ∷ cs) h))
  ]

module _ (n : ℕ) (next : Text → Result (Fields × Text))
    (ends : (s : Text) → length s < n → Ends n (next s)) where
  pub after_field-Ends :
      (k : Text) (v : Json) (s : Text) → length s ≤ n → Ends n (after_field k v next s)
  after_field-Ends k v [] h = tt
  after_field-Ends k v (c ∷ cs) h = elim (Bool-cases (c == b',')) [
    | inl more ↦ rw more (
        Ends-bind n _ (λ fs rest l. l) (next (skip cs))
          (ends (skip cs) (omega (arith, skip-shorter cs))))
    | inr other ↦ elim (Bool-cases (c == b'}')) [
      | inl closed ↦ rw (other, closed) (omega arith)
      | inr wrong ↦ rw (other, wrong) tt
    ]
  ]

  pub open_object-Ends : (s : Text) → length s < n → Ends n (open_object next s)
  open_object-Ends [] h = tt
  open_object-Ends (c ∷ cs) h = elim (Bool-cases (c == b'}')) [
    | inl closed ↦ rw closed (omega arith)
    | inr other ↦ rw other (Ends-bind n _ (λ fs rest l. l) (next (c ∷ cs)) (ends (c ∷ cs) h))
  ]

scan_value-Ends :
    (s : Text) (items : Text → Result (Items × Text)) (fields : Text → Result (Fields × Text))
    → ((r : Text) → length r < length s → Ends (length s) (items r))
    → ((r : Text) → length r < length s → Ends (length s) (fields r))
    → Ends (length s) (scan_value items fields s)
scan_value-Ends [] items fields hi hf = tt
scan_value-Ends (c ∷ cs) items fields hi hf =
    let n = length (c ∷ cs) in
    elim (Bool-cases (c == 34)) [
      | inl quote ↦ rw quote (
          Ends-bind n _ (λ s rest l. l) (scan_string (suc (length cs)) cs)
            (Ends-le (length cs) n _ (omega arith)
              (scan_string-Ends (suc (length cs)) cs (omega arith))))
      | inr no_quote ↦ elim (Bool-cases (c == b'[')) [
        | inl bracket ↦
            rw (no_quote, bracket)
              (open_array-Ends n items hi (skip cs) (omega (arith, skip-shorter cs)))
        | inr no_bracket ↦ elim (Bool-cases (c == b'{')) [
          | inl brace ↦
              rw (no_quote, no_bracket, brace)
                (open_object-Ends n fields hf (skip cs) (omega (arith, skip-shorter cs)))
          | inr other ↦ rw (no_quote, no_bracket, other) (scan_plain-Ends (c ∷ cs) (omega arith))
        ]
      ]
    ]

scan_key-Ends : (s : Text) → Ends (length s) (scan_key s)
scan_key-Ends [] = tt
scan_key-Ends (c ∷ cs) = elim (Bool-cases (c == 34)) [
  | inl quote ↦ rw quote (
      Ends-le (length cs) (length (c ∷ cs)) (scan_string (suc (length cs)) cs) (omega arith)
        (scan_string-Ends (suc (length cs)) cs (omega arith)))
  | inr other ↦ rw other tt
]

-- What follows a colon is shorter.
colon-Ends :
    {A : Type 0} (n : ℕ) (s : Text) (next : Text → Result (A × Text))
    → length s ≤ n
    → ((r : Text) → length r < n → Ends n (next r))
    → Ends n (scan_colon s >>= next)
colon-Ends n [] next h ends = tt
colon-Ends n (c ∷ cs) next h ends = elim (Bool-cases (c == b':')) [
  | inl colon ↦ rw colon (ends (skip cs) (omega (arith, skip-shorter cs)))
  | inr other ↦ rw other tt
]

-- The fuel of a call is twice the length of its text and more; what is read takes one character at least.
mutual
  unfolding parse_json

  parse_json-Ends : (f : ℕ) (s : Text) → 2 * length s < f → Ends (length s) (parse_json f s)
  parse_json-Ends zero s h = absurd (omega arith)
  parse_json-Ends (suc f) s h =
      scan_value-Ends s (λ r. parse_items f r) (λ r. parse_fields f r)
        (λ r l.
          Ends-le (length r) (length s) (parse_items f r) (omega arith)
            (parse_items-Ends f r (omega arith)))
        (λ r l.
          Ends-le (length r) (length s) (parse_fields f r) (omega arith)
            (parse_fields-Ends f r (omega arith)))

  parse_items-Ends : (f : ℕ) (s : Text) → suc (2 * length s) < f → Ends (length s) (parse_items f s)
  parse_items-Ends zero s h = absurd (omega arith)
  parse_items-Ends (suc f) s h =
      Ends-bind (length s) _
        (λ v rest l.
          Ends-le (length rest) (length s) (after_item v (λ r. parse_items f r) (skip rest))
            (omega arith)
            (after_item-Ends (length rest) (λ r. parse_items f r)
              (λ r l'.
                Ends-le (length r) (length rest) (parse_items f r) (omega arith)
                  (parse_items-Ends f r (omega arith)))
              v (skip rest) (skip-shorter rest)))
        (parse_json f s) (parse_json-Ends f s (omega arith))

  parse_fields-Ends :
      (f : ℕ) (s : Text) → suc (2 * length s) < f → Ends (length s) (parse_fields f s)
  parse_fields-Ends zero s h = absurd (omega arith)
  parse_fields-Ends (suc f) s h =
      let n = length s in
      Ends-bind n _
        (λ k s₁ l₁. colon-Ends n (skip s₁) _ (omega (arith, skip-shorter s₁)) (λ s₂ l₂.
          Ends-bind n _
            (λ v rest l.
              Ends-le (length rest) n (after_field k v (λ r. parse_fields f r) (skip rest))
                (omega arith)
                (after_field-Ends (length rest) (λ r. parse_fields f r)
                  (λ r l'.
                    Ends-le (length r) (length rest) (parse_fields f r) (omega arith)
                      (parse_fields-Ends f r (omega arith)))
                  k v (skip rest) (skip-shorter rest)))
            (parse_json f s₂)
            (Ends-le (length s₂) n (parse_json f s₂) (omega arith)
              (parse_json-Ends f s₂ (omega arith)))))
        (scan_key s) (scan_key-Ends s)

whole_text-IsPlain : (v : Json) (rest : Text) → IsPlain (whole_text (v, rest))
whole_text-IsPlain v rest =
    elim (skip rest)
      as (λ t.
        IsPlain (elim t as (λ _. Result Json) [ [] ↦ ok v | c ∷ cs ↦ err json_decode_error ])) [
          | [] ↦ tt
          | c ∷ cs ↦ tt
        ]

whole-IsPlain : (n : ℕ) (r : Result (Json × Text)) → Ends n r → IsPlain (r >>= whole_text)
whole-IsPlain n (ok (v, rest)) h = whole_text-IsPlain v rest
whole-IsPlain n (err timeout) h = h
whole-IsPlain n (err stuck) h = h
whole-IsPlain n (err _) h = tt

pub loads-IsPlain : (s : Text) → IsPlain (loads s)
unfolding loads
loads-IsPlain s =
    whole-IsPlain (length (skip s)) (parse_json (suc (2 * length s)) (skip s))
      (parse_json-Ends (suc (2 * length s)) (skip s) (omega (arith, skip-shorter s)))
