-- ===== src/Py/Str/Kept.antt =====
-- The parts of a text that `strip`, `split` and `split(sep, 1)` give have no characters of their own.
use embeded_convey_belt.Prelude.{
  ℕ, Bool-cases, inl, inr, List, [], ◌∷◌, ◌++◌, All, All-append, ◌==◌,
}
use embeded_convey_belt.Py.{Text}
use embeded_convey_belt.Py.Str.{is_space, lstrip, strip, emit, split_from, split, before, behind}
use embeded_convey_belt.Py.Str.Words.{All-reverse}

module _ {κ} (P : ℕ → Type κ) where
  All-lstrip : (s : Text) → All P s → All P (lstrip s)
  unfolding lstrip
  All-lstrip [] h = tt
  All-lstrip (c ∷ cs) h = elim (Bool-cases (is_space c)) [
    | inl blank ↦ rw blank (All-lstrip cs h.1)
    | inr other ↦ rw other h
  ]

  pub All-strip : (s : Text) → All P s → All P (strip s)
  unfolding strip
  All-strip s h = All-reverse P _ (All-lstrip _ (All-reverse P _ (All-lstrip s h)))

  All-emit :
      (word : Text) (words : List Text)
      → All P word
      → All (λ w. All P w) words
      → All (λ w. All P w) (emit word words)
  All-emit [] words h hs = hs
  All-emit (c ∷ cs) words h hs = (h, hs)

  All-split_from : (s word : Text) → All P word → All P s → All (λ w. All P w) (split_from word s)
  unfolding split_from
  All-split_from [] word hw h = All-emit word [] hw tt
  All-split_from (c ∷ cs) word hw h = elim (Bool-cases (is_space c)) [
    | inl blank ↦ rw blank (All-emit word _ hw (All-split_from cs [] tt h.1))
    | inr other ↦
        rw other (All-split_from cs (word ++ c ∷ []) (All-append P word (c ∷ []) hw (h.0, tt)) h.1)
  ]

  pub All-split : (s : Text) → All P s → All (λ w. All P w) (split s)
  unfolding split
  All-split s h = All-split_from s [] tt h

  pub All-before : (c : ℕ) (s : Text) → All P s → All P (before c s)
  All-before c [] h = tt
  All-before c (d ∷ ds) h = elim (Bool-cases (d == c)) [
    | inl here ↦ rw here tt
    | inr other ↦ rw other (h.0, All-before c ds h.1)
  ]

  pub All-behind : (c : ℕ) (s : Text) → All P s → All P (behind c s)
  All-behind c [] h = tt
  All-behind c (d ∷ ds) h = elim (Bool-cases (d == c)) [
    | inl here ↦ rw here (h.1)
    | inr other ↦ rw other (All-behind c ds h.1)
  ]
