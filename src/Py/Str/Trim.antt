-- ===== src/Py/Str/Trim.antt =====
-- `strip` in terms of a trim of the right end that goes from the left.
use embeded_convey_belt.Prelude.{
  ℕ, ◌≡◌, ◌∙◌, refl, sym, ap, true, false, [], ◌∷◌, ◌++◌, All, Bool-cases, inl, inr, if◌then◌else◌,
}
use embeded_convey_belt.Py.{Text}
use embeded_convey_belt.Py.Str.{is_space, lstrip, strip}
use mathlib.Core.List.{reverse, reverse-append}

-- `strip` at the right end, from the left.
abbrev pub trim_cons : ℕ → Text → Text
trim_cons c [] = if is_space c then [] else c ∷ []
trim_cons c (d ∷ ds) = c ∷ d ∷ ds

abbrev pub right_trim : Text → Text
right_trim [] = []
right_trim (c ∷ cs) = trim_cons c (right_trim cs)

trim_cons-append : (c : ℕ) (s : Text) (d : ℕ) → trim_cons c (s ++ d ∷ []) ≡ c ∷ (s ++ d ∷ [])
trim_cons-append c [] d = refl
trim_cons-append c (x ∷ s) d = refl

lstrip-append :
    (s : Text) (c : ℕ) → reverse (lstrip (s ++ c ∷ [])) ≡ trim_cons c (reverse (lstrip s))
unfolding lstrip
lstrip-append [] c = elim (Bool-cases (is_space c)) [
  | inl blank ↦ rw blank refl
  | inr plain ↦ rw plain refl
]
lstrip-append (d ∷ ds) c = elim (Bool-cases (is_space d)) [
  | inl blank ↦ rw blank (lstrip-append ds c)
  | inr plain ↦
      rw
        (
          plain,
          reverse-append (d ∷ []) (ds ++ c ∷ []),
          reverse-append (d ∷ []) ds,
          reverse-append ds (c ∷ []),
        )
        (sym (trim_cons-append c (reverse ds) d))
]

reverse-lstrip : (s : Text) → reverse (lstrip (reverse s)) ≡ right_trim s
unfolding lstrip
reverse-lstrip [] = refl
reverse-lstrip (c ∷ cs) =
    rw (reverse-append (c ∷ []) cs)
      (lstrip-append (reverse cs) c ∙ ap (trim_cons c) (reverse-lstrip cs))

lstrip-lead : (lead s : Text) → All (λ c. is_space c ≡ true) lead → lstrip (lead ++ s) ≡ lstrip s
unfolding lstrip
lstrip-lead [] s h = refl
lstrip-lead (c ∷ cs) s h = rw h.0 (lstrip-lead cs s h.1)

-- Behind the spaces of `lead` stands a character that is none.
pub strip-lead :
    (lead : Text) (c : ℕ) (s : Text)
    → All (λ d. is_space d ≡ true) lead
    → is_space c ≡ false
    → strip (lead ++ c ∷ s) ≡ right_trim (c ∷ s)
unfolding strip lstrip
strip-lead lead c s blank plain =
    let whole : lstrip (lead ++ c ∷ s) ≡ c ∷ s = lstrip-lead lead (c ∷ s) blank ∙ rw plain refl in
    rw whole (reverse-lstrip (c ∷ s))

trim_cons-plain : (c : ℕ) (r : Text) → is_space c ≡ false → trim_cons c r ≡ c ∷ r
trim_cons-plain c [] h = rw h refl
trim_cons-plain c (d ∷ ds) h = refl

pub right_trim-append :
    (w s : Text) → All (λ c. is_space c ≡ false) w → right_trim (w ++ s) ≡ w ++ right_trim s
right_trim-append [] s h = refl
right_trim-append (c ∷ cs) s h =
    trim_cons-plain c (right_trim (cs ++ s)) h.0 ∙ ap (◌∷◌ c) (right_trim-append cs s h.1)
