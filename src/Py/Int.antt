-- ===== src/Py/Int.antt =====
-- `int(s)` and `int(s, 16)` on texts of ASCII digits, and the decimal form of an integer. (Other
-- Unicode digits, and the limit of 4300 digits of newer interpreters, are not in the model.)
pub mod Digits
pub mod RoundTrip
pub mod Plain
use embeded_convey_belt.Prelude.{
  ℕ, zero, suc, ◌+◌, ◌-◌, ◌*◌, ◌/◌, ◌%◌, Bool, true, false, ◌&&◌, ◌||◌, Option, none, some, [], ◌∷◌,
  ltb, leb, ◌==◌, if◌then◌else◌,
}
use embeded_convey_belt.Py.{Result, ok, err, value_error, Text, ◌>>=◌}
use embeded_convey_belt.Py.Str.{strip}

-- `negsuc n` is -(n + 1).
pub data ℤ : Type 0 where
  pos negsuc : ℕ → ℤ

abbrev pub negate : ℕ → ℤ
negate zero = pos zero
negate (suc n) = negsuc n

-- The value of a digit, below 36.
unfoldable pub digit_value : ℕ → Option ℕ
digit_value c =
    if leb b'0' c && leb c b'9'
    then some (c - b'0')
    else if leb b'a' c && leb c b'z'
    then some (c - b'a' + 10)
    else if leb b'A' c && leb c b'Z'
    then some (c - b'A' + 10)
    else none

-- Digits with single underscores between them; `ready` says that the last character was a digit.
unfoldable pub digits_from : ℕ → ℕ → Bool → Text → Result ℕ
digits_from base acc ready [] = if ready then ok acc else err value_error
digits_from base acc ready (c ∷ cs) =
    let skip = digits_from base acc false cs in
    if c == b'_' then (if ready then skip else err value_error) else elim (digit_value c) [
      | none ↦ err value_error
      | some d ↦ elim (ltb d base) [
        | true ↦ digits_from base (acc * base + d) true cs
        | false ↦ err value_error
      ]
    ]

abbrev drop_underscore : Text → Text
drop_underscore [] = []
drop_underscore (c ∷ cs) = if c == b'_' then cs else c ∷ cs

-- An optional 0x in base 16.
drop_prefix : ℕ → Text → Text
drop_prefix base (c ∷ d ∷ cs) =
    if base == 16 && c == b'0' && (d == b'x' || d == b'X') then drop_underscore cs else c ∷ d ∷ cs
drop_prefix base s = s

unfoldable pub unsigned : ℕ → Text → Result ℕ
unfolding digits_from drop_prefix
unsigned base s = digits_from base 0 false (drop_prefix base s)

signed : ℕ → Text → Result ℤ
signed base [] = err value_error
signed base (c ∷ cs) =
    if c == b'-'
    then (do n ← unsigned base cs; ok (negate n))
    else if c == b'+'
    then (do n ← unsigned base cs; ok (pos n))
    else do n ← unsigned base (c ∷ cs); ok (pos n)

unfoldable pub parse_int : ℕ → Text → Result ℤ
unfolding signed
parse_int base s = signed base (strip s)

-- The digits of n in a base, in front of `rest`; n + 1 rounds are enough.
unfoldable pub digit_char : ℕ → ℕ
digit_char d = if ltb d 10 then b'0' + d else b'a' + (d - 10)

unfoldable pub digits_onto : ℕ → ℕ → ℕ → Text → Text
digits_onto zero base n rest = rest
digits_onto (suc fuel) base n rest =
    let rest' = digit_char (n % base) ∷ rest in
    let more = digits_onto fuel base (n / base) rest' in if n / base == 0 then rest' else more

unfoldable pub show_nat : ℕ → ℕ → Text
unfolding digits_onto
show_nat base n = digits_onto (suc n) base n []

-- `str(n)` of an integer
unfoldable pub show_int : ℤ → Text
unfolding show_nat
show_int (pos n) = show_nat 10 n
show_int (negsuc n) = b'-' ∷ show_nat 10 (suc n)
