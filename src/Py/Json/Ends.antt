-- ===== src/Py/Json/Ends.antt =====
-- What the scanners of `json.loads` leave of their text.
use embeded_convey_belt.Prelude.{
  ℕ, zero, suc, ◌≤◌, ◌<◌, ◌&&◌, ◌||◌, Option, none, some, [], ◌∷◌, ◌++◌, ltb, leb, ◌==◌, length,
  Bool-cases, inl, inr, arith,
}
use embeded_convey_belt.Py.{Result, ok, err, json_decode_error, timeout, stuck, Text, ◌>>=◌}
use embeded_convey_belt.Py.Plain.{IsPlain}
use embeded_convey_belt.Py.Int.{parse_int}
use embeded_convey_belt.Py.Int.Plain.{parse_int-IsPlain}
use embeded_convey_belt.Py.Json.{Json, num}
use embeded_convey_belt.Py.Json.Scan.{
  with_rest, hex_four, Scanned, onto_text, join_with, behind_high, code_point, plain_escape,
  scan_escape, scan_char, scan_string, digits_run, is_digit, integer_part, with_digits, fraction,
  signed_digits, exponent, number_of, number_behind, scan_number,
}

-- Fewer than n characters are left behind what was read, and no fuel ran out.
abbrev pub Ends {ℓ} : {A : Type ℓ} → ℕ → Result (A × Text) → Type 0
Ends n (ok (a, rest)) = length rest < n
Ends n (err timeout) = ⊥
Ends n (err stuck) = ⊥
Ends n (err _) = Unit

pub Ends-le {ℓ} : {A : Type ℓ} (m n : ℕ) (r : Result (A × Text)) → m ≤ n → Ends m r → Ends n r
Ends-le m n (ok (a, rest)) l h = omega arith
Ends-le m n (err timeout) l h = h
Ends-le m n (err stuck) l h = h
Ends-le m n (err _) l h = tt

module _ {ℓ κ} {A : Type ℓ} {B : Type κ} (n : ℕ) (f : A × Text → Result (B × Text))
    (rest : (a : A) (s : Text) → length s < n → Ends n (f (a, s))) where
  pub Ends-bind : (r : Result (A × Text)) → Ends n r → Ends n (r >>= f)
  Ends-bind (ok (a, s)) h = rest a s h
  Ends-bind (err timeout) h = h
  Ends-bind (err stuck) h = h
  Ends-bind (err _) h = tt

-- A part that may be missing.
abbrev Short {ℓ} : {A : Type ℓ} → ℕ → Option (A × Text) → Type 0
Short n none = Unit
Short n (some (a, rest)) = length rest < n

with_rest-Short :
    (n : ℕ) (rest : Text) (o : Option ℕ) → length rest < n → Short n (with_rest rest o)
with_rest-Short n rest none h = tt
with_rest-Short n rest (some d) h = h

hex_four-Short : (s : Text) → Short (length s) (hex_four s)
unfolding hex_four
hex_four-Short [] = tt
hex_four-Short (a ∷ []) = tt
hex_four-Short (a ∷ b ∷ []) = tt
hex_four-Short (a ∷ b ∷ c ∷ []) = tt
hex_four-Short (a ∷ b ∷ c ∷ d ∷ rest) = with_rest-Short _ rest _ (omega arith)

Ends-onto_text : (n c : ℕ) (r : Scanned) → Ends n r → Ends n (onto_text c r)
Ends-onto_text n c (ok (s, rest)) h = h
Ends-onto_text n c (err timeout) h = h
Ends-onto_text n c (err stuck) h = h
Ends-onto_text n c (err _) h = tt

module _ (n : ℕ) (next : Text → Scanned) (ends : (s : Text) → length s < n → Ends n (next s)) where
  join_with-Ends :
      (high : ℕ) (rest : Text) (o : Option (ℕ × Text))
      → length rest < n
      → Short n o
      → Ends n (join_with high next rest o)
  join_with-Ends high rest none h short = tt
  join_with-Ends high rest (some (low, rest')) h short =
      elim (Bool-cases (leb 0xdc00 low && leb low 0xdfff)) [
        | inl joins ↦ rw joins (Ends-onto_text n _ (next rest') (ends rest' short))
        | inr alone ↦ rw alone (Ends-onto_text n _ (next rest) (ends rest h))
      ]

  one_by_one : (high : ℕ) (rest : Text) → length rest < n → Ends n (onto_text high (next rest))
  one_by_one high rest h = Ends-onto_text n high (next rest) (ends rest h)

  Short-le : (m : ℕ) (o : Option (ℕ × Text)) → m ≤ n → Short m o → Short n o
  Short-le m none l h = tt
  Short-le m (some (d, rest)) l h = omega arith

  behind_high-Ends :
      (high : ℕ) (rest : Text) → length rest < n → Ends n (behind_high high next rest)
  behind_high-Ends high [] h = one_by_one high [] h
  behind_high-Ends high (c ∷ []) h = one_by_one high (c ∷ []) h
  behind_high-Ends high (c ∷ d ∷ cs) h = elim (Bool-cases (c == 92 && d == b'u')) [
    | inl escape ↦ rw escape (
        join_with-Ends high (c ∷ d ∷ cs) (hex_four cs) h
          (Short-le (length cs) (hex_four cs) (omega arith) (hex_four-Short cs)))
    | inr other ↦ rw other (one_by_one high (c ∷ d ∷ cs) h)
  ]

  code_point-Ends : (o : Option (ℕ × Text)) → Short n o → Ends n (code_point next o)
  code_point-Ends none h = tt
  code_point-Ends (some (d, rest)) h = elim (Bool-cases (leb 0xd800 d && leb d 0xdbff)) [
    | inl high ↦ rw high (behind_high-Ends d rest h)
    | inr other ↦ rw other (one_by_one d rest h)
  ]

  plain-Ends :
      (o : Option ℕ) (cs : Text)
      → length cs < n
      → Ends n (elim o as (λ _. Scanned) [
        | none ↦ err json_decode_error
        | some d ↦ onto_text d (next cs)
      ])
  plain-Ends none cs h = tt
  plain-Ends (some d) cs h = one_by_one d cs h

  scan_escape-Ends : (s : Text) → length s < n → Ends n (scan_escape next s)
  scan_escape-Ends [] h = tt
  scan_escape-Ends (c ∷ cs) h = elim (Bool-cases (c == b'u')) [
    | inl u ↦ rw u (
        code_point-Ends (hex_four cs)
          (Short-le (length cs) (hex_four cs) (omega arith) (hex_four-Short cs)))
    | inr other ↦ rw other (plain-Ends (plain_escape c) cs (omega arith))
  ]

  scan_char-Ends : (s : Text) → length s ≤ n → Ends n (scan_char next s)
  scan_char-Ends [] h = tt
  scan_char-Ends (c ∷ cs) h = elim (Bool-cases (c == 34)) [
    | inl quote ↦ rw quote (omega arith)
    | inr no_quote ↦ elim (Bool-cases (c == 92)) [
      | inl slash ↦ rw (no_quote, slash) (scan_escape-Ends cs (omega arith))
      | inr other ↦ elim (Bool-cases (ltb c 32)) [
        | inl control ↦ rw (no_quote, other, control) tt
        | inr plain ↦ rw (no_quote, other, plain) (one_by_one c cs (omega arith))
      ]
    ]
  ]

pub scan_string-Ends :
    (fuel : ℕ) (s : Text) → length s < fuel → Ends (length s) (scan_string fuel s)
unfolding scan_string
scan_string-Ends zero s h = absurd (omega arith)
scan_string-Ends (suc fuel) s h =
    scan_char-Ends (length s) (λ r. scan_string fuel r)
      (λ r l.
        Ends-le (length r) (length s) (scan_string fuel r) (omega arith)
          (scan_string-Ends fuel r (omega arith)))
      s (omega arith)

-- The parts of a number.
digits_run-shorter : (s : Text) → length (digits_run s).1 ≤ length s
digits_run-shorter [] = omega arith
digits_run-shorter (c ∷ cs) = elim (Bool-cases (is_digit c)) [
  | inl digit ↦ rw digit (omega (arith, digits_run-shorter cs))
  | inr other ↦ rw other (omega arith)
]

integer_part-Short : (s : Text) → Short (length s) (integer_part s)
integer_part-Short [] = tt
integer_part-Short (c ∷ cs) = elim (Bool-cases (c == b'0')) [
  | inl nought ↦ rw nought (omega arith)
  | inr other ↦ elim (Bool-cases (is_digit c)) [
    | inl digit ↦ rw (other, digit) (omega (arith, digits_run-shorter cs))
    | inr none_there ↦ rw (other, none_there) tt
  ]
]

with_digits-shorter :
    (front whole : Text) (found : Text × Text)
    → length found.1 ≤ length whole
    → length (with_digits front whole found).1 ≤ length whole
with_digits-shorter front whole ([], rest) h = omega arith
with_digits-shorter front whole (d ∷ ds, rest) h = h

fraction-shorter : (s : Text) → length (fraction s).1 ≤ length s
fraction-shorter [] = omega arith
fraction-shorter (c ∷ cs) = elim (Bool-cases (c == b'.')) [
  | inl point ↦
      rw point (
        with_digits-shorter (c ∷ []) (c ∷ cs) (digits_run cs)
          (omega (arith, digits_run-shorter cs)))
  | inr other ↦ rw other (omega arith)
]

signed_digits-shorter :
    (e : ℕ) (whole s : Text)
    → length s ≤ length whole
    → length (signed_digits e whole s).1 ≤ length whole
signed_digits-shorter e whole [] h = omega arith
signed_digits-shorter e whole (c ∷ cs) h = elim (Bool-cases (c == b'-' || c == b'+')) [
  | inl sign ↦ rw sign (
      with_digits-shorter (e ∷ c ∷ []) whole (digits_run cs) (omega (arith, digits_run-shorter cs)))
  | inr other ↦ rw other (
      with_digits-shorter (e ∷ []) whole (digits_run (c ∷ cs))
        (omega (arith, digits_run-shorter (c ∷ cs))))
]

exponent-shorter : (s : Text) → length (exponent s).1 ≤ length s
exponent-shorter [] = omega arith
exponent-shorter (c ∷ cs) = elim (Bool-cases (c == b'e' || c == b'E')) [
  | inl exp ↦ rw exp (signed_digits-shorter c (c ∷ cs) cs (omega arith))
  | inr other ↦ rw other (omega arith)
]

with_number-Ends :
    {A : Type 0} (n : ℕ) (r : Result A) (f : A → Json) (rest : Text)
    → IsPlain r
    → length rest < n
    → Ends n (do z ← r; ok (f z, rest))
with_number-Ends n (ok z) f rest h l = l
with_number-Ends n (err timeout) f rest h l = h
with_number-Ends n (err stuck) f rest h l = h
with_number-Ends n (err _) f rest h l = tt

number_of-Ends :
    (n : ℕ) (whole frac exp rest : Text) → length rest < n → Ends n (number_of whole frac exp rest)
number_of-Ends n whole [] [] rest l =
    with_number-Ends n (parse_int 10 whole) num rest (parse_int-IsPlain 10 whole) l
number_of-Ends n whole (c ∷ cs) [] rest l = l
number_of-Ends n whole [] (e ∷ es) rest l = l
number_of-Ends n whole (c ∷ cs) (e ∷ es) rest l = l

number_behind-Ends :
    (n : ℕ) (sign : Text) (o : Option (Text × Text)) → Short n o → Ends n (number_behind sign o)
number_behind-Ends n sign none h = tt
number_behind-Ends n sign (some (whole, s₁)) h =
    number_of-Ends n (sign ++ whole) (fraction s₁).0 (exponent (fraction s₁).1).0
      (exponent (fraction s₁).1).1
      (omega (arith, fraction-shorter s₁, exponent-shorter (fraction s₁).1))

pub scan_number-Ends : (s : Text) → Ends (length s) (scan_number s)
unfolding scan_number
scan_number-Ends [] = tt
scan_number-Ends (c ∷ cs) = elim (Bool-cases (c == b'-')) [
  | inl minus ↦ rw minus (
      Ends-le (length cs) (length (c ∷ cs)) (number_behind (c ∷ []) (integer_part cs)) (omega arith)
        (number_behind-Ends (length cs) (c ∷ []) (integer_part cs) (integer_part-Short cs)))
  | inr other ↦ rw other (
      number_behind-Ends (length (c ∷ cs)) [] (integer_part (c ∷ cs)) (integer_part-Short (c ∷ cs)))
]
