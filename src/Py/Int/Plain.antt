-- ===== src/Py/Int/Plain.antt =====
-- `int` raises nothing but ValueError.
use embeded_convey_belt.Prelude.{
  ℕ, ◌+◌, ◌*◌, Bool, true, false, Option, none, some, [], ◌∷◌, ltb, ◌==◌, if◌then◌else◌, Bool-cases,
  inl, inr,
}
use embeded_convey_belt.Py.{Result, err, value_error, Text}
use embeded_convey_belt.Py.Plain.{IsPlain, IsPlain-bind}
use embeded_convey_belt.Py.Str.{strip}
use embeded_convey_belt.Py.Int.{digit_value, digits_from, drop_prefix, unsigned, signed, parse_int}

after_underscore :
    (base acc : ℕ) (ready : Bool) (cs : Text)
    → IsPlain (digits_from base acc false cs)
    → IsPlain (if ready then digits_from base acc false cs else err value_error)
after_underscore base acc true cs h = h
after_underscore base acc false cs h = tt

after_test :
    (b : Bool) (r : Result ℕ)
    → IsPlain r
    → IsPlain (elim b as (λ _. Result ℕ) [ true ↦ r | false ↦ err value_error ])
after_test true r h = h
after_test false r h = tt

after_digit :
    (base : ℕ) (found : Option ℕ) (next : ℕ → Result ℕ)
    → ((d : ℕ) → IsPlain (next d))
    → IsPlain (elim found as (λ _. Result ℕ) [
      | none ↦ err value_error
      | some d ↦ elim (ltb d base) as (λ _. Result ℕ) [ true ↦ next d | false ↦ err value_error ]
    ])
after_digit base none next h = tt
after_digit base (some d) next h = after_test (ltb d base) (next d) (h d)

digits_from-IsPlain :
    (base acc : ℕ) (ready : Bool) (s : Text) → IsPlain (digits_from base acc ready s)
unfolding digits_from
digits_from-IsPlain base acc true [] = tt
digits_from-IsPlain base acc false [] = tt
digits_from-IsPlain base acc ready (c ∷ cs) = elim (Bool-cases (c == b'_')) [
  | inl under ↦
      rw under (after_underscore base acc ready cs (digits_from-IsPlain base acc false cs))
  | inr other ↦ rw other (
      after_digit base (digit_value c) (λ d. digits_from base (acc * base + d) true cs)
        (λ d. digits_from-IsPlain base (acc * base + d) true cs))
]

unsigned-IsPlain : (base : ℕ) (s : Text) → IsPlain (unsigned base s)
unfolding unsigned
unsigned-IsPlain base s = digits_from-IsPlain base 0 false (drop_prefix base s)

signed-IsPlain : (base : ℕ) (s : Text) → IsPlain (signed base s)
unfolding signed
signed-IsPlain base [] = tt
signed-IsPlain base (c ∷ cs) = elim (Bool-cases (c == b'-')) [
  | inl minus ↦ rw minus (IsPlain-bind _ (λ n. tt) (unsigned base cs) (unsigned-IsPlain base cs))
  | inr other ↦ elim (Bool-cases (c == b'+')) [
    | inl plus ↦
        rw (other, plus) (IsPlain-bind _ (λ n. tt) (unsigned base cs) (unsigned-IsPlain base cs))
    | inr digit ↦
        rw (other, digit)
          (IsPlain-bind _ (λ n. tt) (unsigned base (c ∷ cs)) (unsigned-IsPlain base (c ∷ cs)))
  ]
]

pub parse_int-IsPlain : (base : ℕ) (s : Text) → IsPlain (parse_int base s)
unfolding parse_int
parse_int-IsPlain base s = signed-IsPlain base (strip s)
