-- ===== src/Py/Utf8.antt =====
-- `str.encode()` and `bytes.decode()` in their default form: UTF-8, strict. Surrogates have no
-- encoding; a decoder refuses them, overlong forms, and code points from 0x110000 on.
pub mod RoundTrip
pub mod Errors
use embeded_convey_belt.Prelude.{
  ℕ, zero, suc, ◌+◌, ◌*◌, ◌/◌, ◌%◌, ◌≤◌, ◌<◌, ◌≡◌, refl, ◌⊎◌, ap, Bool, ◌&&◌, ◌||◌, List, [], ◌∷◌,
  ◌++◌, All, arith, ltb, leb, if◌then◌else◌,
}
use embeded_convey_belt.Py.{Result, ok, err, unicode_error, ◌>>=◌, Text}

is_surrogate : ℕ → Bool
is_surrogate c = leb 0xd800 c && ltb c 0xe000

-- A code point that Python can encode.
abbrev pub IsScalar : ℕ → Type 0
IsScalar c = (c < 0xd800) ⊎ ((0xe000 ≤ c) × (c < 0x110000))

unfoldable pub encode_char : ℕ → Result (List ℕ)
unfolding is_surrogate
encode_char c =
    if ltb c 0x80
    then ok (c ∷ [])
    else if ltb c 0x800
    then ok ((0xc0 + c / 64) ∷ (0x80 + c % 64) ∷ [])
    else if is_surrogate c
    then err unicode_error
    else if ltb c 0x10000
    then ok ((0xe0 + c / 4096) ∷ (0x80 + c / 64 % 64) ∷ (0x80 + c % 64) ∷ [])
    else ok
        ((0xf0 + c / 262144) ∷ (0x80 + c / 4096 % 64) ∷ (0x80 + c / 64 % 64) ∷ (0x80 + c % 64) ∷ [])

unfoldable pub encode : Text → Result (List ℕ)
encode [] = ok []
encode (c ∷ cs) = do b ← encode_char c; bs ← encode cs; ok (b ++ bs)

-- One byte at a time: `need` continuation bytes are missing, `acc` holds the bits read so far, and
-- the finished code point must be at least `low`.
pub decode_from : ℕ → ℕ → ℕ → List ℕ → Result Text
unfolding is_surrogate
decode_from zero acc low [] = ok []
decode_from (suc need) acc low [] = err unicode_error
decode_from zero acc low (b ∷ bs) =
    let plain = (do cs ← decode_from 0 0 0 bs; ok (b ∷ cs)) in
    let two = decode_from 1 (b % 32) 0x80 bs in
    let three = decode_from 2 (b % 16) 0x800 bs in
    let four = decode_from 3 (b % 8) 0x10000 bs in
    if ltb b 0x80
    then plain
    else if leb 0xc0 b && ltb b 0xe0
    then two
    else if leb 0xe0 b && ltb b 0xf0
    then three
    else if leb 0xf0 b && ltb b 0xf8
    then four
    else err unicode_error
decode_from (suc zero) acc low (b ∷ bs) =
    let c = acc * 64 + b % 64 in
    let last = (do cs ← decode_from 0 0 0 bs; ok (c ∷ cs)) in
    if leb 0x80 b && ltb b 0xc0 && leb low c && ltb c 0x110000
    then (if is_surrogate c then err unicode_error else last)
    else err unicode_error
decode_from (suc (suc need)) acc low (b ∷ bs) =
    let more = decode_from (suc need) (acc * 64 + b % 64) low bs in
    if leb 0x80 b && ltb b 0xc0 then more else err unicode_error

unfoldable pub decode : List ℕ → Result Text
unfolding decode_from
decode bs = decode_from 0 0 0 bs
