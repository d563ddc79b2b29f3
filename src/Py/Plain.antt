-- ===== src/Py/Plain.antt =====
-- The pure steps of the library raise neither a timeout nor the mark of spent fuel.
use embeded_convey_belt.Prelude.{ℕ, zero, suc, List, [], ◌∷◌}
use embeded_convey_belt.Py.{Result, ok, err, timeout, stuck, index, ◌>>=◌}

-- A pure step that raises neither a timeout nor `stuck`.
abbrev pub IsPlain {ℓ} : {A : Type ℓ} → Result A → Type 0
IsPlain (ok a) = Unit
IsPlain (err timeout) = ⊥
IsPlain (err stuck) = ⊥
IsPlain (err _) = Unit

pub index-IsPlain {ℓ} : {A : Type ℓ} (xs : List A) (i : ℕ) → IsPlain (index xs i)
index-IsPlain [] i = tt
index-IsPlain (x ∷ xs) zero = tt
index-IsPlain (x ∷ xs) (suc i) = index-IsPlain xs i

module _ {ℓ κ} {A : Type ℓ} {B : Type κ} (f : A → Result B) (rest : (a : A) → IsPlain (f a)) where
  pub IsPlain-bind : (r : Result A) → IsPlain r → IsPlain (r >>= f)
  IsPlain-bind (ok a) h = rest a
  IsPlain-bind (err timeout) h = h
  IsPlain-bind (err _) h = h
