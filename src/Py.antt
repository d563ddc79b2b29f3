-- ===== src/Py.antt =====
-- The part of Python's standard library that the programs under broker/, scripts/ and
-- conveyor_event_daemon.py use: exceptions here, and texts, integers and `struct` in the children.
pub mod Utf8
pub mod Struct
pub mod Str
pub mod Int
pub mod Json
pub mod Plain
pub mod Clock
use Prim.Native.Char.{code}
use Prim.Native.String.{String}
use embeded_convey_belt.Prelude.{ℕ, zero, suc, ◌<◌, ◌≡◌, ◌⊎◌, inl, inr, refl, List, [], ◌∷◌}

-- The classes of exception that the programs raise or catch. `stuck` is no exception: it answers
-- for a loop of the model that ran out of fuel.
pub data Exc : Type 0 where
  eof_error runtime_error timeout os_error : Exc
  struct_error unicode_error value_error index_error key_error json_decode_error attribute_error
        type_error stuck :
      Exc

pub data Result {ℓ} (A : Type ℓ) : Type ℓ where
  ok : A → Result A
  err : Exc → Result A

-- What follows a statement that may raise.
module _ {ℓ κ} {A : Type ℓ} {B : Type κ} where
  infixl 5 ◌>>=◌
  abbrev pub ◌>>=◌ : Result A → (A → Result B) → Result B
  ok value >>= next = next value
  err exc >>= next = err exc

-- Text is a list of code points, and `bytes` a list of numbers below 256.
abbrev pub Text : Type 0
Text = List ℕ

-- b[i]
abbrev pub index {ℓ} : {A : Type ℓ} → List A → ℕ → Result A
index [] i = err index_error
index (x ∷ xs) zero = ok x
index (x ∷ xs) (suc i) = index xs i

abbrev pub IsByte : ℕ → Type 0
IsByte b = b < 256

pub Result-cases {ℓ} :
    {A : Type ℓ} (r : Result A) → ((a : A) × (r ≡ ok a)) ⊎ ((e : Exc) × (r ≡ err e))
Result-cases (ok a) = inl (a, refl)
Result-cases (err e) = inr (e, refl)

-- A text literal as code points.
abbrev pub text : String → Text
text String.[] = []
text (String.◌∷◌ c s) = code c ∷ text s
