-- ===== src/Py/Json/Scan.antt =====
-- The strings and numbers that `json.loads` reads.
use embeded_convey_belt.Prelude.{
  ℕ, zero, suc, ◌+◌, ◌-◌, ◌*◌, Bool, ◌&&◌, ◌||◌, Option, none, some, [], ◌∷◌, ◌++◌, ltb, leb, ◌==◌,
  if◌then◌else◌,
}
use embeded_convey_belt.Py.{Result, ok, err, json_decode_error, stuck, Text, ◌>>=◌}
use embeded_convey_belt.Py.Int.{digit_value, parse_int}
use embeded_convey_belt.Py.Json.{Json, num, real}

abbrev pub below_16 : Option ℕ → Option ℕ
below_16 none = none
below_16 (some d) = if ltb d 16 then some d else none

unfoldable pub hex_digit : ℕ → Option ℕ
hex_digit c = below_16 (digit_value c)

abbrev pub then_digit : Option ℕ → Option ℕ → Option ℕ
then_digit none d = none
then_digit (some n) none = none
then_digit (some n) (some d) = some (n * 16 + d)

abbrev pub with_rest : Text → Option ℕ → Option (ℕ × Text)
with_rest rest none = none
with_rest rest (some n) = some (n, rest)

-- Four hexadecimal digits, and what follows.
unfoldable pub hex_four : Text → Option (ℕ × Text)
hex_four (a ∷ b ∷ c ∷ d ∷ rest) =
    with_rest rest
      (then_digit (then_digit (then_digit (hex_digit a) (hex_digit b)) (hex_digit c)) (hex_digit d))
hex_four s = none

abbrev pub Scanned : Type 0
Scanned = Result (Text × Text)

abbrev pub onto_text : ℕ → Scanned → Scanned
onto_text c (ok (s, rest)) = ok (c ∷ s, rest)
onto_text c (err e) = err e

-- Behind a high surrogate: a low one in the next escape joins it, and otherwise it stands alone.
abbrev pub join_with : ℕ → (Text → Scanned) → Text → Option (ℕ × Text) → Scanned
join_with high next rest none = err json_decode_error
join_with high next rest (some (low, rest')) =
    if leb 0xdc00 low && leb low 0xdfff
    then onto_text (0x10000 + ((high - 0xd800) * 1024 + (low - 0xdc00))) (next rest')
    else onto_text high (next rest)

abbrev pub behind_high : ℕ → (Text → Scanned) → Text → Scanned
behind_high high next (c ∷ d ∷ cs) =
    if c == 92 && d == b'u'
    then join_with high next (c ∷ d ∷ cs) (hex_four cs)
    else onto_text high (next (c ∷ d ∷ cs))
behind_high high next rest = onto_text high (next rest)

abbrev pub code_point : (Text → Scanned) → Option (ℕ × Text) → Scanned
code_point next none = err json_decode_error
code_point next (some (n, rest)) =
    if leb 0xd800 n && leb n 0xdbff then behind_high n next rest else onto_text n (next rest)

-- The character behind a backslash, other than `u`.
abbrev pub plain_escape : ℕ → Option ℕ
plain_escape c =
    if c == 34 || c == 92 || c == b'/'
    then some c
    else if c == b'b'
    then some 8
    else if c == b'f'
    then some 12
    else if c == b'n'
    then some 10
    else if c == b'r'
    then some 13
    else if c == b't'
    then some 9
    else none

abbrev pub scan_escape : (Text → Scanned) → Text → Scanned
scan_escape next [] = err json_decode_error
scan_escape next (c ∷ cs) =
    if c == b'u'
    then code_point next (hex_four cs)
    else elim (plain_escape c) [ none ↦ err json_decode_error | some d ↦ onto_text d (next cs) ]

-- One character of a string, up to the closing quote. Control characters are refused.
abbrev pub scan_char : (Text → Scanned) → Text → Scanned
scan_char next [] = err json_decode_error
scan_char next (c ∷ cs) =
    if c == 34
    then ok ([], cs)
    else if c == 92
    then scan_escape next cs
    else if ltb c 32
    then err json_decode_error
    else onto_text c (next cs)

-- Behind the opening quote. Each round takes one character at least.
unfoldable pub scan_string : ℕ → Text → Scanned
scan_string zero s = err stuck
scan_string (suc fuel) s = scan_char (λ rest. scan_string fuel rest) s

abbrev pub is_digit : ℕ → Bool
is_digit c = leb b'0' c && leb c b'9'

-- \d*
abbrev pub digits_run : Text → Text × Text
digits_run [] = ([], [])
digits_run (c ∷ cs) =
    let (ds, rest) = digits_run cs in if is_digit c then (c ∷ ds, rest) else ([], c ∷ cs)

-- (0|[1-9]\d*)
abbrev pub integer_part : Text → Option (Text × Text)
integer_part [] = none
integer_part (c ∷ cs) =
    if c == b'0'
    then some (b'0' ∷ [], cs)
    else if is_digit c
    then some (digits_run (c ∷ cs))
    else none

-- One digit at least behind `front`, or nothing of it.
abbrev pub with_digits : Text → Text → Text × Text → Text × Text
with_digits front whole ([], rest) = ([], whole)
with_digits front whole (d ∷ ds, rest) = (front ++ d ∷ ds, rest)

-- (\.\d+)?
abbrev pub fraction : Text → Text × Text
fraction [] = ([], [])
fraction (c ∷ cs) =
    if c == b'.' then with_digits (c ∷ []) (c ∷ cs) (digits_run cs) else ([], c ∷ cs)

abbrev pub signed_digits : ℕ → Text → Text → Text × Text
signed_digits e whole [] = ([], whole)
signed_digits e whole (c ∷ cs) =
    if c == b'-' || c == b'+'
    then with_digits (e ∷ c ∷ []) whole (digits_run cs)
    else with_digits (e ∷ []) whole (digits_run (c ∷ cs))

-- ([eE][-+]?\d+)?
abbrev pub exponent : Text → Text × Text
exponent [] = ([], [])
exponent (c ∷ cs) = if c == b'e' || c == b'E' then signed_digits c (c ∷ cs) cs else ([], c ∷ cs)

-- `int` for a number without fraction and exponent, and a float otherwise.
abbrev pub number_of : Text → Text → Text → Text → Result (Json × Text)
number_of whole [] [] rest = do z ← parse_int 10 whole; ok (num z, rest)
number_of whole frac [] rest = ok (real (whole ++ frac), rest)
number_of whole frac (e ∷ es) rest = ok (real (whole ++ (frac ++ e ∷ es)), rest)

abbrev pub number_behind : Text → Option (Text × Text) → Result (Json × Text)
number_behind sign none = err json_decode_error
number_behind sign (some (whole, s₁)) =
    let (frac, s₂) = fraction s₁ in
    let (exp, s₃) = exponent s₂ in number_of (sign ++ whole) frac exp s₃

unfoldable pub scan_number : Text → Result (Json × Text)
scan_number [] = err json_decode_error
scan_number (c ∷ cs) =
    if c == b'-'
    then number_behind (c ∷ []) (integer_part cs)
    else number_behind [] (integer_part (c ∷ cs))
