-- ===== src/Py/Utf8/Errors.antt =====
-- Which exceptions decoding raises.
use embeded_convey_belt.Prelude.{
  ℕ, zero, suc, ◌+◌, ◌*◌, ◌%◌, Bool, true, false, List, [], ◌∷◌, if◌then◌else◌,
}
use embeded_convey_belt.Py.{Result, ok, err, unicode_error, Text, ◌>>=◌}
use embeded_convey_belt.Py.Utf8.{encode_char, encode, decode_from, decode}

-- The error, if there is one, is a UnicodeError.
pub data IsUnicode {ℓ} {A : Type ℓ} : Result A → Type ℓ where
  fine : (a : A) → IsUnicode (ok a)
  refused : IsUnicode (err unicode_error)

module _ {ℓ} {A : Type ℓ} where
  IsUnicode-if :
      (b : Bool) (x y : Result A) → IsUnicode x → IsUnicode y → IsUnicode (if b then x else y)
  IsUnicode-if true x y hx hy = hx
  IsUnicode-if false x y hx hy = hy

IsUnicode-cons : (c : ℕ) (r : Result Text) → IsUnicode r → IsUnicode (r >>= λ cs. ok (c ∷ cs))
IsUnicode-cons c r (fine cs) = fine (c ∷ cs)
IsUnicode-cons c r refused = refused

ruleset unicode_rules = (IsUnicode-if, IsUnicode-cons, fine, refused)

decode_from-IsUnicode : (bs : List ℕ) (need acc low : ℕ) → IsUnicode (decode_from need acc low bs)
unfolding decode_from
decode_from-IsUnicode [] zero acc low = search unicode_rules
decode_from-IsUnicode [] (suc need) acc low = search unicode_rules
decode_from-IsUnicode (b ∷ bs) zero acc low = search (
  unicode_rules,
  decode_from-IsUnicode bs 0 0 0,
  decode_from-IsUnicode bs 1 (b % 32) 0x80,
  decode_from-IsUnicode bs 2 (b % 16) 0x800,
  decode_from-IsUnicode bs 3 (b % 8) 0x10000,
)
decode_from-IsUnicode (b ∷ bs) (suc zero) acc low =
    search (unicode_rules, decode_from-IsUnicode bs 0 0 0)
decode_from-IsUnicode (b ∷ bs) (suc (suc need)) acc low =
    search (unicode_rules, decode_from-IsUnicode bs (suc need) (acc * 64 + b % 64) low)

-- `bytes.decode()` raises nothing but UnicodeDecodeError.
pub decode-IsUnicode : (bs : List ℕ) → IsUnicode (decode bs)
unfolding decode
decode-IsUnicode bs = decode_from-IsUnicode bs 0 0 0

encode_char-IsUnicode : (c : ℕ) → IsUnicode (encode_char c)
unfolding encode_char
encode_char-IsUnicode c = search unicode_rules

IsUnicode-bind {ℓ κ} :
    {A : Type ℓ} {B : Type κ} (r : Result A) (f : A → Result B)
    → IsUnicode r
    → ((a : A) → IsUnicode (f a))
    → IsUnicode (r >>= f)
IsUnicode-bind r f (fine a) h = h a
IsUnicode-bind r f refused h = refused

-- `str.encode()` raises nothing but UnicodeEncodeError.
pub encode-IsUnicode : (s : Text) → IsUnicode (encode s)
unfolding encode
encode-IsUnicode [] = fine []
encode-IsUnicode (c ∷ cs) =
    IsUnicode-bind (encode_char c) _ (encode_char-IsUnicode c)
      λ b. IsUnicode-bind (encode cs) _ (encode-IsUnicode cs) λ bs. fine _
