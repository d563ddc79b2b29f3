-- ===== src/Py/Json/Strings.antt =====
-- `json.loads` on the strings that `json.dumps` writes.
use embeded_convey_belt.Prelude.{
  ℕ, zero, suc, ◌+◌, ◌-◌, ◌/◌, ◌%◌, ◌≤◌, ◌<◌, ◌≡◌, ◌∙◌, refl, ap, true, false, ◌&&◌, some, [], ◌∷◌,
  ◌++◌, append_assoc, All, arith, length, length-append, ltb, leb, ◌==◌, Bool-cases, inl, inr, ◌⊎◌,
  ==_iff,
}
use embeded_convey_belt.Py.{ok, Text}
use embeded_convey_belt.Py.Utf8.{IsScalar}
use embeded_convey_belt.Py.Int.{digit_char}
use embeded_convey_belt.Py.Int.Digits.{digit_value-digit_char}
use embeded_convey_belt.Event.Json.{unicode_escape, escape, escapes}
use embeded_convey_belt.Py.Json.Scan.{
  hex_digit, hex_four, Scanned, onto_text, scan_char, scan_string,
}

hex_digit-digit_char : (d : ℕ) → d < 16 → hex_digit (digit_char d) ≡ some d
unfolding hex_digit
hex_digit-digit_char d h = rw (digit_value-digit_char d (omega arith)) (ground arith)

hex_four_digits :
    (n : ℕ) (rest : Text)
    → n < 65536
    → hex_four (
        digit_char (n / 4096 % 16)
        ∷ digit_char (n / 256 % 16)
        ∷ digit_char (n / 16 % 16)
        ∷ digit_char (n % 16)
        ∷ rest)
      ≡ some (n, rest)
unfolding hex_four
hex_four_digits n rest h =
    rw
      (
        hex_digit-digit_char (n / 4096 % 16) (omega arith),
        hex_digit-digit_char (n / 256 % 16) (omega arith),
        hex_digit-digit_char (n / 16 % 16) (omega arith),
        hex_digit-digit_char (n % 16) (omega arith),
      )
      (ap (λ m. some (m, rest)) (omega arith))

module _ (next : Text → Scanned) (tail : Text) where
  scan_unicode :
      (c : ℕ)
      → c < 65536
      → (c < 0xd800) ⊎ (0xdc00 ≤ c)
      → scan_char next (unicode_escape c ++ tail) ≡ onto_text c (next tail)
  unfolding unicode_escape
  scan_unicode c h plain = rw (hex_four_digits c tail h) (ground arith)

  scan_pair :
      (c : ℕ)
      → 65536 ≤ c
      → c < 0x110000
      → scan_char next (
          (unicode_escape (0xd800 + (c - 0x10000) / 1024)
            ++ unicode_escape (0xdc00 + (c - 0x10000) % 1024))
          ++ tail)
        ≡ onto_text c (next tail)
  unfolding unicode_escape
  scan_pair c lo hi =
      let high = 0xd800 + (c - 0x10000) / 1024 in
      let low = 0xdc00 + (c - 0x10000) % 1024 in
      let is_high : (leb 0xd800 high && leb high 0xdbff) ≡ true = ground arith in
      let is_low : (leb 0xdc00 low && leb low 0xdfff) ≡ true = ground arith in
      rw
        (
          hex_four_digits high (unicode_escape low ++ tail) (omega arith),
          is_high,
          hex_four_digits low tail (omega arith),
          is_low,
        )
        (ap (λ m. onto_text m (next tail)) (omega arith))

  -- A character that has no escape of its own.
  plain_char :
      (c : ℕ)
      → IsScalar c
      → (c == 34) ≡ false
      → (c == 92) ≡ false
      → (c == 10) ≡ false
      → (c == 13) ≡ false
      → (c == 9) ≡ false
      → (c == 12) ≡ false
      → (c == 8) ≡ false
      → scan_char next (escape c ++ tail) ≡ onto_text c (next tail)
  unfolding escape
  plain_char c h n34 n92 n10 n13 n9 n12 n8 = elim (Bool-cases (leb 32 c && leb c 126)) [
    | inl shown ↦
        let above : ltb c 32 ≡ false = ground (arith, shown) in
        rw (n34, n92, n10, n13, n9, n12, n8, shown, n34, n92, above) refl
    | inr hidden ↦ elim (Bool-cases (ltb c 0x10000)) [
      | inl small ↦
          rw (n34, n92, n10, n13, n9, n12, n8, hidden, small)
            (scan_unicode c (ground (arith, small)) (ground (arith, h)))
      | inr big ↦
          rw (n34, n92, n10, n13, n9, n12, n8, hidden, big)
            (scan_pair c (ground (arith, big)) (ground (arith, h)))
    ]
  ]

  scan_char-escape :
      (c : ℕ) → IsScalar c → scan_char next (escape c ++ tail) ≡ onto_text c (next tail)
  unfolding escape
  scan_char-escape c h = elim (Bool-cases (c == 34)) [
    | inl is_34 ↦ let same : c ≡ 34 = (==_iff c 34).0 is_34 in rw same refl
    | inr not_34 ↦ elim (Bool-cases (c == 92)) [
      | inl is_92 ↦ let same : c ≡ 92 = (==_iff c 92).0 is_92 in rw same refl
      | inr not_92 ↦ elim (Bool-cases (c == 10)) [
        | inl is_10 ↦ let same : c ≡ 10 = (==_iff c 10).0 is_10 in rw same refl
        | inr not_10 ↦ elim (Bool-cases (c == 13)) [
          | inl is_13 ↦ let same : c ≡ 13 = (==_iff c 13).0 is_13 in rw same refl
          | inr not_13 ↦ elim (Bool-cases (c == 9)) [
            | inl is_9 ↦ let same : c ≡ 9 = (==_iff c 9).0 is_9 in rw same refl
            | inr not_9 ↦ elim (Bool-cases (c == 12)) [
              | inl is_12 ↦ let same : c ≡ 12 = (==_iff c 12).0 is_12 in rw same refl
              | inr not_12 ↦ elim (Bool-cases (c == 8)) [
                | inl is_8 ↦ let same : c ≡ 8 = (==_iff c 8).0 is_8 in rw same refl
                | inr not_8 ↦ plain_char c h not_34 not_92 not_10 not_13 not_9 not_12 not_8
              ]
            ]
          ]
        ]
      ]
    ]
  ]

escape-longer : (c : ℕ) → 1 ≤ length (escape c)
unfolding escape unicode_escape
escape-longer c = ground arith

length-le-escapes : (s : Text) → length s ≤ length (escapes s)
length-le-escapes [] = omega arith
length-le-escapes (c ∷ cs) =
    omega (arith, length-append {0} (escape c) (escapes cs), escape-longer c, length-le-escapes cs)

scan_string-escapes :
    (s rest : Text) (fuel : ℕ)
    → All IsScalar s
    → length s < fuel
    → scan_string fuel (escapes s ++ 34 ∷ rest) ≡ ok (s, rest)
unfolding scan_string
scan_string-escapes s rest zero h f = absurd (omega arith)
scan_string-escapes [] rest (suc fuel) h f = refl
scan_string-escapes (c ∷ cs) rest (suc fuel) h f =
    ap (λ t. scan_char (λ r. scan_string fuel r) t)
      (append_assoc (escape c) (escapes cs) (34 ∷ rest))
    ∙ scan_char-escape (λ r. scan_string fuel r) (escapes cs ++ 34 ∷ rest) c h.0
    ∙ ap (onto_text c) (scan_string-escapes cs rest fuel h.1 (omega arith))

-- Behind the opening quote, with the fuel that `loads` gives.
pub scan_string-quoted :
    (s rest : Text)
    → All IsScalar s
    → scan_string (suc (length (escapes s ++ 34 ∷ rest))) (escapes s ++ 34 ∷ rest) ≡ ok (s, rest)
scan_string-quoted s rest h =
    scan_string-escapes s rest (suc (length (escapes s ++ 34 ∷ rest))) h
      (omega (arith, length-append {0} (escapes s) (34 ∷ rest), length-le-escapes s))
