-- ===== src/Py/Int/RoundTrip.antt =====
-- Reading back the digits that were written.
use embeded_convey_belt.Prelude.{ℕ, suc, ◌≡◌, ◌∙◌, refl, false, [], ◌∷◌, arith, ◌==◌}
use embeded_convey_belt.Py.{ok, Text}
use embeded_convey_belt.Py.Str.{is_space}
use embeded_convey_belt.Py.Str.Words.{strip-IsWord}
use embeded_convey_belt.Py.Int.Digits.{
  Digits, digit_char_range, digits_from-digits_onto, show_nat-Digits, Digits-IsWord,
}
use embeded_convey_belt.Py.Int.{
  ℤ, pos, negsuc, digit_char, digits_from, drop_prefix, unsigned, parse_int, show_nat, show_int,
}

drop_prefix-ten : (s : Text) → drop_prefix 10 s ≡ s
unfolding drop_prefix
drop_prefix-ten [] = refl
drop_prefix-ten (c ∷ []) = refl
drop_prefix-ten (c ∷ d ∷ cs) = refl

unsigned-show_nat : (n : ℕ) → unsigned 10 (show_nat 10 n) ≡ ok n
unfolding unsigned show_nat
unsigned-show_nat n = rw drop_prefix-ten (
    digits_from-digits_onto (suc n) 10 n false [] (omega arith) (omega arith) (omega arith)
    ∙ unfold digits_from in refl)

drop_prefix-hex : (s : Text) → Digits s → drop_prefix 16 (b'0' ∷ b'x' ∷ s) ≡ s
unfolding drop_prefix
drop_prefix-hex s h =
    let (_, _, ne) = digit_char_range h.first h.first_digit in
    let plain : (digit_char h.first == b'_') ≡ false = ground arith in rw (h.shape, plain)

unsigned-hex : (n : ℕ) → unsigned 16 (b'0' ∷ b'x' ∷ show_nat 16 n) ≡ ok n
unfolding unsigned
unsigned-hex n =
    rw (drop_prefix-hex (show_nat 16 n) (show_nat-Digits 16 n (omega arith) (omega arith))) (
      unfold show_nat in
      digits_from-digits_onto (suc n) 16 n false [] (omega arith) (omega arith) (omega arith)
      ∙ unfold digits_from in refl)

-- Neither a sign nor a space stands in front of a digit.
parse_int-unsigned :
    (base : ℕ) (s : Text) (n : ℕ)
    → Digits s
    → unsigned base s ≡ ok n
    → parse_int base s ≡ ok (pos n)
unfolding parse_int
parse_int-unsigned base s n h e =
    let (least, most, ne) = digit_char_range h.first h.first_digit in
    let minus : (digit_char h.first == b'-') ≡ false = ground arith in
    let plus : (digit_char h.first == b'+') ≡ false = ground arith in
    let read : unsigned base (digit_char h.first ∷ h.others) ≡ ok n = rw (h.shape) at e in
    rw (strip-IsWord s (Digits-IsWord s h), h.shape, minus, plus, read)

-- `int` reads back what `str` wrote of a natural number.
pub parse_int-show_nat : (n : ℕ) → parse_int 10 (show_nat 10 n) ≡ ok (pos n)
parse_int-show_nat n =
    parse_int-unsigned 10 (show_nat 10 n) n (show_nat-Digits 10 n (omega arith) (omega arith))
      (unsigned-show_nat n)

-- `int(s, 16)` reads back what the format `0x%x` writes.
pub parse_int-hex : (n : ℕ) → parse_int 16 (b'0' ∷ b'x' ∷ show_nat 16 n) ≡ ok (pos n)
unfolding parse_int is_space
parse_int-hex n =
    let digits = show_nat-Digits 16 n (omega arith) (omega arith) in
    rw (
      strip-IsWord (b'0' ∷ b'x' ∷ show_nat 16 n) (refl, (refl, Digits-IsWord _ digits)),
      unsigned-hex n,
    )

-- `int` reads back what `str` wrote of an integer.
pub parse_int-show_int : (z : ℤ) → parse_int 10 (show_int z) ≡ ok z
unfolding show_int
parse_int-show_int (pos n) = parse_int-show_nat n
parse_int-show_int (negsuc n) =
    let digits = show_nat-Digits 10 (suc n) (omega arith) (omega arith) in
    unfold parse_int is_space in
    rw (
      strip-IsWord (b'-' ∷ show_nat 10 (suc n)) (refl, Digits-IsWord _ digits),
      unsigned-show_nat (suc n),
    )
