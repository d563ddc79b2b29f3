-- ===== src/Wire/Names.antt =====
-- What `_enc_str` writes.
use embeded_convey_belt.Prelude.{
  ℕ, ◌/◌, ◌%◌, ◌<◌, ◌≡◌, ap, List, [], ◌∷◌, arith, length, All, ltb, lt→ltb, if◌then◌else◌,
}
use embeded_convey_belt.Py.{ok, err, struct_error, IsByte, Text}
use embeded_convey_belt.Py.Utf8.{IsScalar, encode, decode}
use embeded_convey_belt.Py.Utf8.RoundTrip.{decode-encode}
use embeded_convey_belt.Py.Struct.{pack_h, unpack_h}
use embeded_convey_belt.Wire.Encode.{enc_str}

-- A length of 16 bits, high byte first, in front of `b`.
abbrev pub counted : List ℕ → List ℕ
counted b = length b / 256 ∷ length b % 256 ∷ b

pub unpack_h-counted : (n : ℕ) → unpack_h (n / 256 ∷ n % 256 ∷ []) ≡ ok n
unfolding unpack_h
unpack_h-counted n = ap ok (omega arith)

-- A text whose encoding is shorter than 65536 bytes.
pub record Fits (s : Text) (b : List ℕ) : Type 0 where
  pub encoded : encode s ≡ ok b
  pub decoded : decode b ≡ ok s
  pub are_bytes : All IsByte b
  pub short : length b < 65536

pub enc_str-Fits : (s : Text) (b : List ℕ) → Fits s b → enc_str s ≡ ok (counted b)
unfolding enc_str pack_h
enc_str-Fits s b h = rw (h.encoded, lt→ltb _ _ h.short)

-- `_enc_str` of a text of scalar values, which has an encoding in UTF-8 that decodes to the text: with
-- fewer than 65536 bytes in it, `_enc_str` writes their number and the bytes, and `struct.error` is
-- raised for more.
pub enc_str_cases :
    (s : Text)
    → All IsScalar s
    → (b : List ℕ) × (encode s ≡ ok b)
      × (decode b ≡ ok s)
      × (enc_str s ≡ (if ltb (length b) 65536 then ok (counted b) else err struct_error))
unfolding enc_str pack_h
enc_str_cases s h =
    let (b, e, are_bytes, back) = decode-encode s h in (b, e, back, rw e (ground arith))
