-- ===== src/Event/Json/Ascii.antt =====
-- The text that `dumps` writes is printable ASCII, one line that any client can frame.
use embeded_convey_belt.Prelude.{
  ℕ, suc, ◌+◌, ◌-◌, ◌/◌, ◌%◌, ◌≤◌, ◌<◌, ◌≡◌, [], ◌∷◌, ◌++◌, All, All-append, arith, refl,
}
use embeded_convey_belt.Py.{ok, Text}
use embeded_convey_belt.Py.Utf8.{IsScalar, encode_char, encode}
use embeded_convey_belt.Py.Int.{pos, negsuc, ℤ, digit_char, show_int, show_nat}
use embeded_convey_belt.Py.Int.Digits.{IsDigit, Digits, digit_char_range, show_nat-Digits}
use embeded_convey_belt.Event.{Value, num, str, real, Event}
use embeded_convey_belt.Event.Json.{
  unicode_escape, escape, escapes, quoted, dumps_value, members, dumps,
}

abbrev pub IsPrintable : ℕ → Type 0
IsPrintable c = (32 ≤ c) × (c ≤ 126)

-- The float of an event is given by its decimal form, which is printable.
abbrev pub IsClean : Value → Type 0
IsClean (num z) = Unit
IsClean (str s) = Unit
IsClean (real r) = All IsPrintable r

digit-IsPrintable : (d : ℕ) → d < 16 → IsPrintable (digit_char d)
digit-IsPrintable d h = let (least, most, ne) = digit_char_range d h in (omega arith, omega arith)

unicode_escape-IsPrintable : (c : ℕ) → All IsPrintable (unicode_escape c)
unfolding unicode_escape
unicode_escape-IsPrintable c = (
  omega arith,
  (
    omega arith,
    (
      digit-IsPrintable (c / 4096 % 16) (omega arith),
      (
        digit-IsPrintable (c / 256 % 16) (omega arith),
        (
          digit-IsPrintable (c / 16 % 16) (omega arith),
          (digit-IsPrintable (c % 16) (omega arith), tt),
        ),
      ),
    ),
  ),
)

surrogates-IsPrintable : (a b : ℕ) → All IsPrintable (unicode_escape a ++ unicode_escape b)
surrogates-IsPrintable a b =
    All-append IsPrintable (unicode_escape a) (unicode_escape b) (unicode_escape-IsPrintable a)
      (unicode_escape-IsPrintable b)

escape-IsPrintable : (c : ℕ) → All IsPrintable (escape c)
unfolding escape
escape-IsPrintable c = ground (
  arith,
  unicode_escape-IsPrintable c,
  surrogates-IsPrintable (0xd800 + (c - 0x10000) / 1024) (0xdc00 + (c - 0x10000) % 1024),
)

escapes-IsPrintable : (s : Text) → All IsPrintable (escapes s)
escapes-IsPrintable [] = tt
escapes-IsPrintable (c ∷ cs) =
    All-append IsPrintable (escape c) (escapes cs) (escape-IsPrintable c) (escapes-IsPrintable cs)

quoted-IsPrintable : (s : Text) → All IsPrintable (quoted s)
quoted-IsPrintable s = (
  omega arith,
  All-append IsPrintable (escapes s) (34 ∷ []) (escapes-IsPrintable s) (omega arith),
)

digits-IsPrintable : (s : Text) → All IsDigit s → All IsPrintable s
digits-IsPrintable [] h = tt
digits-IsPrintable (c ∷ cs) ((d, hd, e), h) =
    (rw e (digit-IsPrintable d hd), digits-IsPrintable cs h)

pub Digits-IsPrintable : (s : Text) → Digits s → All IsPrintable s
Digits-IsPrintable s h =
    rw (h.shape) (digit-IsPrintable h.first h.first_digit, digits-IsPrintable h.others h.all_digits)

pub show_int-IsPrintable : (z : ℤ) → All IsPrintable (show_int z)
unfolding show_int
show_int-IsPrintable (pos n) =
    Digits-IsPrintable (show_nat 10 n) (show_nat-Digits 10 n (omega arith) (omega arith))
show_int-IsPrintable (negsuc n) = (
  omega arith,
  Digits-IsPrintable (show_nat 10 (suc n)) (show_nat-Digits 10 (suc n) (omega arith) (omega arith)),
)

dumps_value-IsPrintable : (v : Value) → IsClean v → All IsPrintable (dumps_value v)
dumps_value-IsPrintable (num z) h = show_int-IsPrintable z
dumps_value-IsPrintable (str s) h = quoted-IsPrintable s
dumps_value-IsPrintable (real r) h = h

abbrev pub AllClean : Event → Type 0
AllClean [] = Unit
AllClean ((k, v) ∷ ev) = IsClean v × AllClean ev

members-IsPrintable : (ev : Event) → AllClean ev → All IsPrintable (members ev)
members-IsPrintable [] h = tt
members-IsPrintable ((k, v) ∷ []) h =
    All-append IsPrintable (quoted k) (b':' ∷ dumps_value v) (quoted-IsPrintable k)
      (omega arith, dumps_value-IsPrintable v h.0)
members-IsPrintable ((k, v) ∷ kv ∷ ev) h =
    All-append IsPrintable (quoted k) _ (quoted-IsPrintable k) (
      omega arith,
      All-append IsPrintable (dumps_value v) _ (dumps_value-IsPrintable v h.0)
          (omega arith, members-IsPrintable (kv ∷ ev) h.1),
    )

-- `dumps` writes only printable ASCII, whatever keys and texts the event holds, if the decimal forms of
-- its floats are printable ASCII.
pub dumps-IsPrintable : (ev : Event) → AllClean ev → All IsPrintable (dumps ev)
unfolding dumps
dumps-IsPrintable ev h = (
  omega arith,
  All-append IsPrintable (members ev) (b'}' ∷ []) (members-IsPrintable ev h) (omega arith),
)

pub encode-IsPrintable : (s : Text) → All IsPrintable s → encode s ≡ ok s
unfolding encode encode_char
encode-IsPrintable [] h = refl
encode-IsPrintable (c ∷ cs) h = rw (encode-IsPrintable cs h.1) (ground arith)

pub printable-IsScalar : (s : Text) → All IsPrintable s → All IsScalar s
printable-IsScalar [] h = tt
printable-IsScalar (c ∷ cs) h = (omega arith, printable-IsScalar cs h.1)
