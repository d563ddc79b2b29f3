-- ===== src/Py/Utf8/RoundTrip.antt =====
-- Decoding after encoding.
use embeded_convey_belt.Prelude.{
  ℕ, suc, ◌+◌, ◌*◌, ◌/◌, ◌%◌, ◌≤◌, ◌<◌, ◌≡◌, ◌∙◌, refl, inl, inr, List, [], ◌∷◌, ◌++◌, All, arith,
  All-append,
}
use embeded_convey_belt.Py.{Result, ok, ◌>>=◌, Text, IsByte, Result-cases}
use embeded_convey_belt.Py.Utf8.{IsScalar, encode_char, encode, decode_from, decode}

-- What `decode` does behind one complete code point.
abbrev emit : ℕ → List ℕ → Result Text
emit c bs = decode_from 0 0 0 bs >>= λ cs. ok (c ∷ cs)

last_byte :
    (acc low b c : ℕ) (bs : List ℕ)
    → 0x80 ≤ b
    → b < 0xc0
    → acc * 64 + b % 64 ≡ c
    → low ≤ c
    → IsScalar c
    → decode_from 1 acc low (b ∷ bs) ≡ emit c bs
unfolding decode_from
last_byte acc low b c bs h1 h2 e h3 h4 = ground arith

middle_byte :
    (need acc low b c : ℕ) (bs : List ℕ)
    → 0x80 ≤ b
    → b < 0xc0
    → acc * 64 + b % 64 ≡ c
    → decode_from (suc (suc need)) acc low (b ∷ bs) ≡ decode_from (suc need) c low bs
unfolding decode_from
middle_byte need acc low b c bs h1 h2 e = ground arith

first_byte :
    (b : ℕ) (bs : List ℕ)
    → (b < 0x80 → decode_from 0 0 0 (b ∷ bs) ≡ emit b bs)
      × (0xc0 ≤ b → b < 0xe0 → decode_from 0 0 0 (b ∷ bs) ≡ decode_from 1 (b % 32) 0x80 bs)
      × (0xe0 ≤ b → b < 0xf0 → decode_from 0 0 0 (b ∷ bs) ≡ decode_from 2 (b % 16) 0x800 bs)
      × (0xf0 ≤ b → b < 0xf8 → decode_from 0 0 0 (b ∷ bs) ≡ decode_from 3 (b % 8) 0x10000 bs)
unfolding decode_from
first_byte b bs = (λ h. ground arith, λ h k. ground arith, λ h k. ground arith, λ h k. ground arith)

module _ (c : ℕ) (bs : List ℕ) where
  two_bytes :
      0x80 ≤ c → c < 0x800 → decode_from 0 0 0 ((0xc0 + c / 64) ∷ (0x80 + c % 64) ∷ bs) ≡ emit c bs
  two_bytes h k =
      (first_byte (0xc0 + c / 64) _).1 (omega arith) (omega arith)
      ∙ last_byte _ 0x80 _ c bs (omega arith) (omega arith) (omega arith) h (inl (omega arith))

  three_bytes :
      0x800 ≤ c
      → c < 0x10000
      → IsScalar c
      → decode_from 0 0 0 ((0xe0 + c / 4096) ∷ (0x80 + c / 64 % 64) ∷ (0x80 + c % 64) ∷ bs)
        ≡ emit c bs
  three_bytes h k s =
      (first_byte (0xe0 + c / 4096) _).2 (omega arith) (omega arith)
      ∙ middle_byte 0 _ 0x800 _ (c / 64) _ (omega arith) (omega arith) (omega arith)
      ∙ last_byte (c / 64) 0x800 _ c bs (omega arith) (omega arith) (omega arith) h s

  four_bytes :
      0x10000 ≤ c
      → c < 0x110000
      → decode_from 0 0 0 (
          (0xf0 + c / 262144)
          ∷ (0x80 + c / 4096 % 64)
          ∷ (0x80 + c / 64 % 64)
          ∷ (0x80 + c % 64)
          ∷ bs)
        ≡ emit c bs
  four_bytes h k =
      (first_byte (0xf0 + c / 262144) _).3 (omega arith) (omega arith)
      ∙ middle_byte 1 _ 0x10000 _ (c / 4096) _ (omega arith) (omega arith) (omega arith)
      ∙ middle_byte 0 (c / 4096) 0x10000 _ (c / 64) _ (omega arith) (omega arith) (omega arith)
      ∙ last_byte (c / 64) 0x10000 _ c bs (omega arith) (omega arith) (omega arith) h
          (inr (omega arith))

decode-encode_char :
    (c : ℕ) (b bs : List ℕ)
    → encode_char c ≡ ok b
    → c < 0x110000
    → decode_from 0 0 0 (b ++ bs) ≡ emit c bs
unfolding encode_char
decode-encode_char c b bs e h =
    ground (arith, (first_byte c bs).0, two_bytes c bs, three_bytes c bs, four_bytes c bs)

pub encode_char-scalar : (c : ℕ) → IsScalar c → (b : List ℕ) × (encode_char c ≡ ok b)
unfolding encode_char
encode_char-scalar c h = elim (Result-cases (encode_char c)) [
  | inl (b, e) ↦ (b, e)
  | inr (x, e) ↦ absurd (ground arith)
]

pub encode_char-IsByte : (c : ℕ) (b : List ℕ) → encode_char c ≡ ok b → c < 0x110000 → All IsByte b
unfolding encode_char
encode_char-IsByte c b e h = ground arith

-- A text of scalar values has an encoding, a list of bytes, and decoding it gives the text back.
pub decode-encode :
    (s : Text)
    → All IsScalar s
    → (b : List ℕ) × (encode s ≡ ok b) × All IsByte b × (decode b ≡ ok s)
unfolding encode decode
decode-encode [] h = ([], refl, tt, refl)
decode-encode (c ∷ cs) (hc, hcs) =
    let (b, e) = encode_char-scalar c hc in
    let (bs, es, ok_bytes, back) = decode-encode cs hcs in
    (
      b ++ bs,
      rw (e, es),
      All-append IsByte b bs (encode_char-IsByte c b e (omega arith)) ok_bytes,
      decode-encode_char c b bs e (omega arith) ∙ rw back,
    )
