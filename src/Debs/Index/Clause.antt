-- ===== src/Debs/Index/Clause.antt =====
-- The name that `parse_index` takes from one clause of a Depends line: `strip`, and the text in front of
-- the first `|` and the first `(`.
use embeded_convey_belt.Prelude.{
  ℕ, ◌≡◌, ◌∙◌, refl, ap, Bool, true, false, ◌||◌, List, [], ◌∷◌, ◌++◌, All, ◌==◌, Bool-cases, ◌⊎◌,
  inl, inr, append-nil, arith,
}
use embeded_convey_belt.Py.{Text}
use embeded_convey_belt.Py.Str.{is_space, strip, before, contains}
use embeded_convey_belt.Py.Str.Words.{all_plain}
use embeded_convey_belt.Py.Str.Trim.{trim_cons, right_trim, strip-lead, right_trim-append}
use embeded_convey_belt.Debs.Index.{dep_name, is_empty}

-- The characters of a name: no space, and neither `|` nor `(`.
abbrev pub IsNameChar : ℕ → Type 0
IsNameChar c = (is_space c ≡ false) × (c == b'|' ≡ false) × (c == b'(' ≡ false)

pub IsNameChar-by_check :
    (s : Text)
    → all_plain s ≡ true
    → contains b'|' s ≡ false
    → contains b'(' s ≡ false
    → All IsNameChar s
IsNameChar-by_check [] plain bar parenthesis = tt
IsNameChar-by_check (c ∷ cs) plain bar parenthesis = (
  (ground arith, ground arith, ground arith),
  IsNameChar-by_check cs (ground arith) (ground arith) (ground arith),
)

abbrev pub opens : List ℕ → ℕ → Bool
opens [] d = false
opens (o ∷ os) d = d == o || opens os d

-- Spaces up to the end or to the first of the characters `os`.
abbrev pub IsTail : List ℕ → Text → Type 0
IsTail os [] = Unit
IsTail os (c ∷ cs) = ((is_space c ≡ true) × IsTail os cs) ⊎ (opens os c ≡ true)

trim_cons-IsTail :
    (os : List ℕ) (c : ℕ) (r : Text) → is_space c ≡ true → IsTail os r → IsTail os (trim_cons c r)
trim_cons-IsTail os c [] blank h = rw blank tt
trim_cons-IsTail os c (d ∷ ds) blank h = inl (blank, h)

trim_cons-opens : (os : List ℕ) (c : ℕ) (r : Text) → opens os c ≡ true → IsTail os (trim_cons c r)
trim_cons-opens os c [] h = elim (Bool-cases (is_space c)) [
  | inl blank ↦ rw blank tt
  | inr plain ↦ rw plain (inr h)
]
trim_cons-opens os c (d ∷ ds) h = inr h

right_trim-IsTail : (os : List ℕ) (tail : Text) → IsTail os tail → IsTail os (right_trim tail)
right_trim-IsTail os [] h = tt
right_trim-IsTail os (c ∷ cs) (inl h) =
    trim_cons-IsTail os c (right_trim cs) h.0 (right_trim-IsTail os cs h.1)
right_trim-IsTail os (c ∷ cs) (inr h) = trim_cons-opens os c (right_trim cs) h

before-name :
    (o : ℕ) (name tail : Text)
    → All (λ c. c == o ≡ false) name
    → before o (name ++ tail) ≡ name ++ before o tail
before-name o [] tail h = refl
before-name o (c ∷ cs) tail h = rw h.0 (ap (◌∷◌ c) (before-name o cs tail h.1))

before-IsTail :
    (o : ℕ) (os : List ℕ) (tail : Text) → IsTail (o ∷ os) tail → IsTail os (before o tail)
before-IsTail o os [] h = tt
before-IsTail o os (c ∷ cs) (inl h) = elim (Bool-cases (c == o)) [
  | inl here ↦ rw here tt
  | inr other ↦ rw other (inl (h.0, before-IsTail o os cs h.1))
]
before-IsTail o os (c ∷ cs) (inr h) = elim (Bool-cases (c == o)) [
  | inl here ↦ rw here tt
  | inr other ↦ rw other (inr (ground (arith, h, other)))
]

right_trim-blank : (tail : Text) → IsTail [] tail → right_trim tail ≡ []
right_trim-blank [] h = refl
right_trim-blank (c ∷ cs) (inl h) = rw (right_trim-blank cs h.1, h.0) refl
right_trim-blank (c ∷ cs) (inr h) = cc

All-plain : (name : Text) → All IsNameChar name → All (λ c. is_space c ≡ false) name
All-plain [] h = tt
All-plain (c ∷ cs) h = (h.0.0, All-plain cs h.1)

All-bar : (name : Text) → All IsNameChar name → All (λ c. c == b'|' ≡ false) name
All-bar [] h = tt
All-bar (c ∷ cs) h = (h.0.1, All-bar cs h.1)

All-parenthesis : (name : Text) → All IsNameChar name → All (λ c. c == b'(' ≡ false) name
All-parenthesis [] h = tt
All-parenthesis (c ∷ cs) h = (h.0.2, All-parenthesis cs h.1)

strip-name :
    (lead name tail : Text)
    → All (λ c. is_space c ≡ true) lead
    → All IsNameChar name
    → is_empty name ≡ false
    → strip (lead ++ (name ++ tail)) ≡ name ++ right_trim tail
strip-name lead [] tail blank named some_text = cc
strip-name lead (c ∷ cs) tail blank named some_text =
    strip-lead lead c (cs ++ tail) blank named.0.0
    ∙ right_trim-append (c ∷ cs) tail (All-plain (c ∷ cs) named)

-- A clause is spaces, the name, and spaces up to its end, its version or its alternatives.
pub dep_name-clause :
    (lead name tail : Text)
    → All (λ c. is_space c ≡ true) lead
    → All IsNameChar name
    → is_empty name ≡ false
    → IsTail (b'|' ∷ b'(' ∷ []) tail
    → dep_name (lead ++ (name ++ tail)) ≡ name
dep_name-clause lead name tail blank named some_text h =
    let t1 = right_trim tail in
    let h2 = before-IsTail b'|' (b'(' ∷ []) t1 (right_trim-IsTail (b'|' ∷ b'(' ∷ []) tail h) in
    let t2 = right_trim (before b'|' t1) in
    let h3 = before-IsTail b'(' [] t2 (right_trim-IsTail (b'(' ∷ []) (before b'|' t1) h2) in
    rw
      (
        strip-name lead name tail blank named some_text,
        before-name b'|' name t1 (All-bar name named),
        strip-name [] name (before b'|' t1) tt named some_text,
        before-name b'(' name t2 (All-parenthesis name named),
        strip-name [] name (before b'(' t2) tt named some_text,
        right_trim-blank (before b'(' t2) h3,
      )
      (append-nil name)
