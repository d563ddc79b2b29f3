-- ===== src/Py/Json/Printed.antt =====
-- What `json.dumps` writes: valid values, the order of keys, and how the text of a value starts.
use embeded_convey_belt.Prelude.{
  ℕ, suc, ◌≡◌, ◌∙◌, refl, sym, ap, Bool, true, false, ◌||◌, [], ◌∷◌, ◌++◌, All, arith, ◌==◌,
  Bool-cases, inl, inr,
}
use embeded_convey_belt.Py.{Result, ok, Text}
use embeded_convey_belt.Py.Utf8.{IsScalar}
use embeded_convey_belt.Py.Str.{text_eq}
use embeded_convey_belt.Py.Int.{ℤ, pos, negsuc, show_nat, show_int}
use embeded_convey_belt.Event.Fields.{text_eq_iff}
use embeded_convey_belt.Py.Json.{
  Json, null, bool, num, real, str, arr, obj, Items, nil, item, Fields, end, field, set_field,
  dumps_json,
}
use embeded_convey_belt.Py.Json.Scan.{is_digit, scan_number}
use embeded_convey_belt.Py.Json.Loads.{skip, dict_onto, scan_plain, scan_value}
use embeded_convey_belt.Py.Json.Numbers.{IsDecimal, IsReal, show_nat-first}

-- k in d
abbrev pub has_key : Text → Fields → Bool
has_key k end = false
has_key k (field j v fs) = text_eq j k || has_key k fs

abbrev pub IsDict : Fields → Type 0
IsDict end = Unit
IsDict (field k v fs) = (has_key k fs ≡ false) × IsDict fs

-- The texts are of scalar values, the floats in decimal form, and the keys of an object distinct.
unfoldable mutual
  pub IsValid : Json → Type 0
  IsValid null = Unit
  IsValid (bool b) = Unit
  IsValid (num z) = Unit
  IsValid (real r) = IsReal r
  IsValid (str s) = All IsScalar s
  IsValid (arr xs) = AllItems xs
  IsValid (obj fs) = IsDict fs × AllFields fs

  pub AllItems : Items → Type 0
  AllItems nil = Unit
  AllItems (item v xs) = IsValid v × AllItems xs

  pub AllFields : Fields → Type 0
  AllFields end = Unit
  AllFields (field k v fs) = All IsScalar k × IsValid v × AllFields fs

abbrev pub append_fields : Fields → Fields → Fields
append_fields end gs = gs
append_fields (field k v fs) gs = field k v (append_fields fs gs)

set_field-fresh :
    (k : Text) (v : Json) (d : Fields)
    → has_key k d ≡ false
    → set_field k v d ≡ append_fields d (field k v end)
set_field-fresh k v end h = refl
set_field-fresh k v (field j w d) h =
    let other : text_eq j k ≡ false = ground (arith, h) in
    rw other (ap (field j w) (set_field-fresh k v d (ground (arith, h))))

append_fields_assoc :
    (d : Fields) (k : Text) (v : Json) (fs : Fields)
    → append_fields (append_fields d (field k v end)) fs ≡ append_fields d (field k v fs)
append_fields_assoc end k v fs = refl
append_fields_assoc (field j w d) k v fs = ap (field j w) (append_fields_assoc d k v fs)

has_key-append_fields :
    (j k : Text) (v : Json) (d : Fields)
    → has_key j (append_fields d (field k v end)) ≡ (has_key j d || text_eq k j)
has_key-append_fields j k v end = ground arith
has_key-append_fields j k v (field i w d) = ground (arith, has_key-append_fields j k v d)

append_fields_end : (d : Fields) → append_fields d end ≡ d
append_fields_end end = refl
append_fields_end (field k v d) = ap (field k v) (append_fields_end d)

later_key :
    (j k : Text) (v : Json) (d fs : Fields)
    → has_key k fs ≡ false
    → has_key j fs ≡ true
    → has_key j d ≡ false
    → has_key j (append_fields d (field k v end)) ≡ false
later_key j k v d fs absent there out = elim (Bool-cases (text_eq k j)) [
  | inl same ↦
      let there' : has_key k fs ≡ true = rw (← (text_eq_iff k j).0 same) at there in
      absurd (let bad : ◌≡◌ {A = Bool} true false = sym there' ∙ absent in cc)
  | inr other ↦ has_key-append_fields j k v d ∙ rw (out, other) refl
]

pub dict_onto-IsDict :
    (d fs : Fields)
    → IsDict fs
    → ((k : Text) → has_key k fs ≡ true → has_key k d ≡ false)
    → dict_onto d fs ≡ append_fields d fs
dict_onto-IsDict d end h new = sym (append_fields_end d)
dict_onto-IsDict d (field k v fs) h new =
    let fresh : has_key k d ≡ false = new k (rw ((text_eq_iff k k).1 refl) refl) in
    rw (set_field-fresh k v d fresh) (
      dict_onto-IsDict (append_fields d (field k v end)) fs h.1
        (λ j m. later_key j k v d fs h.0 m (new j (ground (arith, m))))
      ∙ append_fields_assoc d k v fs)

-- A text that starts with no blank.
abbrev pub IsSolid : Text → Type 0
IsSolid [] = Unit
IsSolid (c ∷ cs) = (c == 32 || c == 9 || c == 10 || c == 13) ≡ false

pub skip-IsSolid : (s : Text) → IsSolid s → skip s ≡ s
skip-IsSolid [] h = refl
skip-IsSolid (c ∷ cs) h = rw h refl

-- A text that starts with a digit, or with a sign and a digit.
not_char : (c d : ℕ) → IsDecimal c → is_digit d ≡ false → (c == d) ≡ false
not_char c d h other = ground (arith, h, other)

IsSolid-digit : (c : ℕ) (cs : Text) → IsDecimal c → IsSolid (c ∷ cs)
IsSolid-digit c cs h = ground (arith, h)

plain-digit : (c : ℕ) (cs : Text) → IsDecimal c → scan_plain (c ∷ cs) ≡ scan_number (c ∷ cs)
plain-digit c cs h =
    rw
      (
        not_char c b'n' h refl,
        not_char c b't' h refl,
        not_char c b'f' h refl,
        not_char c b'N' h refl,
        not_char c b'I' h refl,
        not_char c b'-' h refl,
      )
      refl

module _ (items : Text → Result (Items × Text)) (fields : Text → Result (Fields × Text)) where
  value-digit :
      (s rest : Text)
      → ((c : ℕ) × (cs : Text) × (s ≡ c ∷ cs) × IsDecimal c)
      → (scan_value items fields (s ++ rest) ≡ scan_number (s ++ rest)) × IsSolid (s ++ rest)
  value-digit s rest (c, cs, e, h) =
      rw (e, not_char c 34 h refl, not_char c b'[' h refl, not_char c b'{' h refl)
        (plain-digit c (cs ++ rest) h, IsSolid-digit c (cs ++ rest) h)

  pub value-show_int :
      (z : ℤ) (rest : Text)
      → (scan_value items fields (show_int z ++ rest) ≡ scan_number (show_int z ++ rest))
        × IsSolid (show_int z ++ rest)
  unfolding show_int
  value-show_int (pos n) rest = value-digit (show_nat 10 n) rest (show_nat-first n)
  value-show_int (negsuc n) rest =
      let (c, cs, e, h) = show_nat-first (suc n) in rw (e, not_char c b'I' h refl) (refl, refl)

  pub value-IsReal :
      (r rest : Text)
      → IsReal r
      → (scan_value items fields (r ++ rest) ≡ scan_number (r ++ rest)) × IsSolid (r ++ rest)
  value-IsReal r rest h =
      let (c, cs, e, digit) = show_nat-first h.whole in
      value-digit r rest (c, cs ++ b'.' ∷ h.digit ∷ h.digits, h.shape ∙ rw e refl, digit)

-- A valid value is printed as a text that starts with no blank.
pub IsSolid-dumps_json : (v : Json) (rest : Text) → IsValid v → IsSolid (dumps_json v ++ rest)
unfolding dumps_json IsValid
IsSolid-dumps_json null rest h = refl
IsSolid-dumps_json (bool true) rest h = refl
IsSolid-dumps_json (bool false) rest h = refl
IsSolid-dumps_json (num z) rest h = (value-show_int (λ s. ok (nil, s)) (λ s. ok (end, s)) z rest).1
IsSolid-dumps_json (real r) rest h = (value-IsReal (λ s. ok (nil, s)) (λ s. ok (end, s)) r rest h).1
IsSolid-dumps_json (str s) rest h = refl
IsSolid-dumps_json (arr nil) rest h = refl
IsSolid-dumps_json (arr (item v xs)) rest h = refl
IsSolid-dumps_json (obj end) rest h = refl
IsSolid-dumps_json (obj (field k v fs)) rest h = refl

-- Nor with a closing bracket.
pub dumps_json-first :
    (v : Json) (rest : Text)
    → IsValid v
    → (c : ℕ) × (cs : Text) × (dumps_json v ++ rest ≡ c ∷ cs) × ((c == b']') ≡ false)
unfolding dumps_json IsValid show_int
dumps_json-first null rest h = (_, _, refl, refl)
dumps_json-first (bool true) rest h = (_, _, refl, refl)
dumps_json-first (bool false) rest h = (_, _, refl, refl)
dumps_json-first (num (pos n)) rest h =
    let (c, cs, e, digit) = show_nat-first n in
    (c, cs ++ rest, rw e refl, not_char c b']' digit refl)
dumps_json-first (num (negsuc n)) rest h = (_, _, refl, refl)
dumps_json-first (real r) rest h =
    let (c, cs, e, digit) = show_nat-first h.whole in
    (c, (cs ++ b'.' ∷ h.digit ∷ h.digits) ++ rest, rw (h.shape, e) refl, not_char c b']' digit refl)
dumps_json-first (str s) rest h = (_, _, refl, refl)
dumps_json-first (arr nil) rest h = (_, _, refl, refl)
dumps_json-first (arr (item v xs)) rest h = (_, _, refl, refl)
dumps_json-first (obj end) rest h = (_, _, refl, refl)
dumps_json-first (obj (field k v fs)) rest h = (_, _, refl, refl)
