-- ===== src/Py/Json/Numbers.antt =====
-- `json.loads` on the numbers that `json.dumps` writes.
use embeded_convey_belt.Prelude.{
  ℕ, zero, suc, ◌/◌, ◌%◌, ◌<◌, ◌≡◌, ◌∙◌, refl, sym, ap, Bool, true, false, ◌||◌, some, [], ◌∷◌,
  ◌++◌, append_assoc, All, arith, ◌==◌, Bool-cases, inl, inr,
}
use embeded_convey_belt.Py.{ok, Text}
use embeded_convey_belt.Py.Int.{ℤ, pos, negsuc, digit_char, digits_onto, show_nat, show_int}
use embeded_convey_belt.Py.Int.RoundTrip.{parse_int-show_int}
use embeded_convey_belt.Py.Json.{num, real}
use embeded_convey_belt.Py.Json.Scan.{
  is_digit, digits_run, integer_part, fraction, exponent, number_behind, scan_number,
}

abbrev pub IsDecimal : ℕ → Type 0
IsDecimal c = is_digit c ≡ true

digit_char-IsDecimal : (d : ℕ) → d < 10 → IsDecimal (digit_char d)
unfolding digit_char
digit_char-IsDecimal d h = ground arith

decimals_onto :
    (fuel n : ℕ) (rest : Text) → All IsDecimal rest → All IsDecimal (digits_onto fuel 10 n rest)
unfolding digits_onto
decimals_onto zero n rest h = h
decimals_onto (suc fuel) n rest h =
    let more : All IsDecimal (digit_char (n % 10) ∷ rest) =
      (digit_char-IsDecimal (n % 10) (omega arith), h) in
    elim (Bool-cases (n / 10 == 0)) [
      | inl done ↦ rw done more
      | inr left ↦ rw left (decimals_onto fuel (n / 10) (digit_char (n % 10) ∷ rest) more)
    ]

-- The first digit of a number that is not 0 is not 0.
leads_onto :
    (fuel n : ℕ) (rest : Text)
    → n < fuel
    → 0 < n
    → (d : ℕ) × (cs : Text) × (digits_onto fuel 10 n rest ≡ digit_char d ∷ cs) × (0 < d) × (d < 10)
unfolding digits_onto
leads_onto zero n rest h p = absurd (omega arith)
leads_onto (suc fuel) n rest h p = elim (Bool-cases (n / 10 == 0)) [
  | inl done ↦ (n % 10, rest, rw done refl, ground (arith, done), omega arith)
  | inr left ↦
      let (d, cs, e, lo, hi) =
        leads_onto fuel (n / 10) (digit_char (n % 10) ∷ rest) (omega arith)
          (ground (arith, left)) in
      (d, cs, rw left e, lo, hi)
]

-- What may stand behind a number: nothing that would go on with it.
abbrev pub goes_on : ℕ → Bool
goes_on c = is_digit c || c == b'.' || c == b'e' || c == b'E'

abbrev pub IsStop : Text → Type 0
IsStop [] = Unit
IsStop (c ∷ cs) = goes_on c ≡ false

-- The same for a run of digits alone.
abbrev pub IsBreak : Text → Type 0
IsBreak [] = Unit
IsBreak (c ∷ cs) = is_digit c ≡ false

digits_run-decimals :
    (ds rest : Text) → All IsDecimal ds → IsBreak rest → digits_run (ds ++ rest) ≡ (ds, rest)
digits_run-decimals [] [] h b = refl
digits_run-decimals [] (c ∷ cs) h b = rw b refl
digits_run-decimals (d ∷ ds) rest h b = rw (h.0, digits_run-decimals ds rest h.1 b) refl

integer_part-show_nat :
    (n : ℕ) (rest : Text)
    → IsBreak rest
    → integer_part (show_nat 10 n ++ rest) ≡ some (show_nat 10 n, rest)
unfolding show_nat
integer_part-show_nat zero rest b = unfold digits_onto digit_char in refl
integer_part-show_nat (suc n) rest b =
    let (d, cs, e, lo, hi) = leads_onto (suc (suc n)) (suc n) [] (omega arith) (omega arith) in
    let all : All IsDecimal (digit_char d ∷ cs) =
      rw e at (decimals_onto (suc (suc n)) (suc n) [] tt) in
    let not_zero : (digit_char d == b'0') ≡ false = unfold digit_char in ground arith in
    rw (e, not_zero, all.0, digits_run-decimals cs rest all.1 b) refl

-- The first character of a number.
pub show_nat-first : (n : ℕ) → (c : ℕ) × (cs : Text) × (show_nat 10 n ≡ c ∷ cs) × IsDecimal c
unfolding show_nat
show_nat-first zero = (b'0', [], unfold digits_onto digit_char in refl, refl)
show_nat-first (suc n) =
    let (d, cs, e, lo, hi) = leads_onto (suc (suc n)) (suc n) [] (omega arith) (omega arith) in
    (digit_char d, cs, e, digit_char-IsDecimal d hi)

fraction-stop :
    (rest : Text)
    → IsStop rest
    → (fraction rest ≡ ([], rest)) × (exponent rest ≡ ([], rest)) × IsBreak rest
fraction-stop [] h = (refl, refl, tt)
fraction-stop (c ∷ cs) h =
    let no_digit : is_digit c ≡ false = ground (arith, h) in
    let no_point : (c == b'.') ≡ false = ground (arith, h) in
    let no_exponent : (c == b'e' || c == b'E') ≡ false = ground (arith, h) in
    (rw no_point refl, rw no_exponent refl, no_digit)

-- A number without a sign.
unsigned_number :
    (whole rest : Text)
    → ((c : ℕ) × (cs : Text) × (whole ≡ c ∷ cs) × IsDecimal c)
    → scan_number (whole ++ rest) ≡ number_behind [] (integer_part (whole ++ rest))
unfolding scan_number
unsigned_number whole rest (c, cs, e, digit) =
    let no_sign : (c == b'-') ≡ false = ground (arith, digit) in rw (e, no_sign) refl

pub scan_number-show_int :
    (z : ℤ) (rest : Text) → IsStop rest → scan_number (show_int z ++ rest) ≡ ok (num z, rest)
unfolding scan_number show_int
scan_number-show_int (pos n) rest h =
    let (no_fraction, no_exponent, b) = fraction-stop rest h in
    unsigned_number (show_nat 10 n) rest (show_nat-first n)
    ∙ rw (integer_part-show_nat n rest b, no_fraction, no_exponent, parse_int-show_int (pos n)) refl
scan_number-show_int (negsuc n) rest h =
    let (no_fraction, no_exponent, b) = fraction-stop rest h in
    rw
      (
        integer_part-show_nat (suc n) rest b,
        no_fraction,
        no_exponent,
        parse_int-show_int (negsuc n),
      )
      refl

-- The decimal form of a float: an integer, a point and some digits.
pub record IsReal (r : Text) : Type 0 where
  pub whole : ℕ
  pub digit : ℕ
  pub digits : Text
  pub decimals : All IsDecimal (digit ∷ digits)
  pub shape : r ≡ show_nat 10 whole ++ b'.' ∷ digit ∷ digits

pub scan_number-IsReal :
    (r rest : Text) → IsReal r → IsStop rest → scan_number (r ++ rest) ≡ ok (real r, rest)
unfolding scan_number
scan_number-IsReal r rest h s =
    let (no_fraction, no_exponent, b) = fraction-stop rest s in
    let tail : Text = b'.' ∷ (h.digit ∷ (h.digits ++ rest)) in
    let split : (r ++ rest) ≡ show_nat 10 h.whole ++ tail =
      ap (λ t. t ++ rest) h.shape
      ∙ append_assoc (show_nat 10 h.whole) (b'.' ∷ h.digit ∷ h.digits) rest in
    rw split (
      unsigned_number (show_nat 10 h.whole) tail (show_nat-first h.whole)
      ∙ rw
          (
            integer_part-show_nat h.whole tail refl,
            h.decimals.0,
            digits_run-decimals h.digits rest h.decimals.1 b,
            no_exponent,
          )
          (ap (λ t. ok (real t, rest)) (sym h.shape)))
