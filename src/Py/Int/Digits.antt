-- ===== src/Py/Int/Digits.antt =====
-- The digits that `show_nat` writes, and reading them one by one.
use embeded_convey_belt.Prelude.{
  ℕ, zero, suc, ◌+◌, ◌*◌, ◌/◌, ◌%◌, ◌≤◌, ◌<◌, ◌≡◌, ◌≢◌, ◌∙◌, refl, sym, ap, Bool, true, false, some,
  [], ◌∷◌, All, arith, lt→ltb, ◌==◌, Bool-cases, inl, inr, ==_iff,
}
use embeded_convey_belt.Py.{Text}
use embeded_convey_belt.Py.Str.{is_space}
use embeded_convey_belt.Py.Str.Words.{IsWord}
use embeded_convey_belt.Py.Int.{digit_value, digit_char, digits_from, digits_onto, show_nat}
use native.Mathlib.Nat.{div-add-mod', zero-div, mod-lt, div-lt_self}

pub digit_value-digit_char : (d : ℕ) → d < 36 → digit_value (digit_char d) ≡ some d
unfolding digit_value digit_char
digit_value-digit_char d h = ground arith

-- The characters that `digit_char` writes, below base 16.
abbrev pub IsDigit : ℕ → Type 0
IsDigit c = (d : ℕ) × (d < 16) × (c ≡ digit_char d)

pub digit_char_range :
    (d : ℕ) → d < 16 → (b'0' ≤ digit_char d) × (digit_char d ≤ b'f') × (digit_char d ≢ b'_')
unfolding digit_char
digit_char_range d h = ground arith

-- One digit is read.
digits_from_step :
    (base acc d : ℕ) (ready : Bool) (rest : Text)
    → d < base
    → base ≤ 16
    → digits_from base acc ready (digit_char d ∷ rest) ≡ digits_from base (acc * base + d) true rest
unfolding digits_from
digits_from_step base acc d ready rest h small =
    let (_, _, ne) = digit_char_range d (omega arith) in
    let plain : (digit_char d == b'_') ≡ false = ground arith in
    rw (plain, digit_value-digit_char d (omega arith), lt→ltb d base h)

smaller : (base n fuel : ℕ) → n < suc fuel → 1 < base → n / base ≢ 0 → n / base < fuel
smaller base zero fuel h lo ne = absurd (ne (zero-div base))
smaller base (suc n) fuel h lo ne =
    omega (arith, div-lt_self {n = suc n} {k = base} (omega arith) lo)

-- What was written in front of `rest` is read, and `rest` is still to be read.
pub digits_from-digits_onto :
    (fuel base n : ℕ) (ready : Bool) (rest : Text)
    → n < fuel
    → 1 < base
    → base ≤ 16
    → digits_from base 0 ready (digits_onto fuel base n rest) ≡ digits_from base n true rest
unfolding digits_onto
digits_from-digits_onto zero base n ready rest h lo hi = elim h [ ]
digits_from-digits_onto (suc fuel) base n ready rest h lo hi =
    let low : n % base < base = mod-lt n (omega arith) in
    let whole : n / base * base + n % base ≡ n = div-add-mod' n base in
    elim (Bool-cases (n / base == 0)) [
      | inl done ↦
          let none_left : n / base ≡ 0 = (==_iff (n / base) 0).0 done in
          rw done (
            digits_from_step base 0 (n % base) ready rest low hi
            ∙ ap (λ m. digits_from base m true rest)
                (sym (ap (λ q. q * base + n % base) none_left) ∙ whole))
      | inr more ↦ rw more (
          digits_from-digits_onto fuel base (n / base) ready (digit_char (n % base) ∷ rest)
            (smaller base n fuel h lo (ground arith)) lo hi
          ∙ digits_from_step base (n / base) (n % base) true rest low hi
          ∙ ap (λ m. digits_from base m true rest) whole)
    ]

-- A text of digits, one at least.
pub record Digits (s : Text) : Type 0 where
  pub first : ℕ
  pub others : Text
  pub first_digit : first < 16
  pub all_digits : All IsDigit others
  pub shape : s ≡ digit_char first ∷ others

digits_onto-Digits :
    (fuel base n m : ℕ) (rest : Text)
    → 1 < base
    → base ≤ 16
    → m < 16
    → All IsDigit rest
    → Digits (digits_onto fuel base n (digit_char m ∷ rest))
unfolding digits_onto
digits_onto-Digits zero base n m rest lo hi hm hr = record {
  first = m;
  others = rest;
  first_digit = hm;
  all_digits = hr;
  shape = refl;
}
digits_onto-Digits (suc fuel) base n m rest lo hi hm hr =
    let low : n % base < base = mod-lt n (omega arith) in
    let rest_digits : All IsDigit (digit_char m ∷ rest) = ((m, hm, refl), hr) in
    elim (Bool-cases (n / base == 0)) [
      | inl done ↦ rw done (record {
        first = n % base;
        others = digit_char m ∷ rest;
        first_digit = omega arith;
        all_digits = rest_digits;
        shape = refl;
      })
      | inr more ↦ rw more (
          digits_onto-Digits fuel base (n / base) (n % base) (digit_char m ∷ rest) lo hi
            (omega arith) rest_digits)
    ]

pub show_nat-Digits : (base n : ℕ) → 1 < base → base ≤ 16 → Digits (show_nat base n)
unfolding show_nat
show_nat-Digits base n lo hi =
    let low : n % base < base = mod-lt n (omega arith) in
    elim (Bool-cases (n / base == 0)) [
      | inl done ↦ rw done (record {
        first = n % base;
        others = [];
        first_digit = omega arith;
        all_digits = tt;
        shape = refl;
      })
      | inr more ↦
          rw more (digits_onto-Digits n base (n / base) (n % base) [] lo hi (omega arith) tt)
    ]

digit-plain : (d : ℕ) → d < 16 → is_space (digit_char d) ≡ false
unfolding is_space
digit-plain d h = let (least, most, ne) = digit_char_range d h in ground arith

digits-IsWord : (s : Text) → All IsDigit s → IsWord s
digits-IsWord [] h = tt
digits-IsWord (c ∷ cs) ((d, hd, e), h) = (ap is_space e ∙ digit-plain d hd, digits-IsWord cs h)

pub Digits-IsWord : (s : Text) → Digits s → IsWord s
Digits-IsWord s h =
    rw (h.shape) (digit-plain h.first h.first_digit, digits-IsWord h.others h.all_digits)
