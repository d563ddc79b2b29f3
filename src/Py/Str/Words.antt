-- ===== src/Py/Str/Words.antt =====
-- `strip` and `split` on words with no space in them.
use embeded_convey_belt.Prelude.{
  ℕ, ◌≡◌, ◌≢◌, ◌∙◌, refl, sym, ap, Bool, true, false, not, ◌&&◌, List, [], ◌∷◌, ◌++◌, append_assoc,
  append-nil, All, All-append, arith, Bool-cases, inl, inr,
}
use embeded_convey_belt.Py.{Text}
use embeded_convey_belt.Py.Str.{is_space, lstrip, strip, split_from, split, emit}
use mathlib.Core.List.{reverse, reverse-reverse, reverse-append}

abbrev pub IsPlain : ℕ → Type 0
IsPlain c = is_space c ≡ false

-- A text without spaces.
abbrev pub IsWord : Text → Type 0
IsWord s = All IsPlain s

-- A check of a text by evaluation.
abbrev pub all_plain : Text → Bool
all_plain [] = true
all_plain (c ∷ cs) = not (is_space c) && all_plain cs

pub IsWord-by_check : (s : Text) → all_plain s ≡ true → IsWord s
IsWord-by_check [] h = tt
IsWord-by_check (c ∷ cs) h = (ground arith, IsWord-by_check cs (ground arith))

lstrip-IsWord : (s : Text) → IsWord s → lstrip s ≡ s
unfolding lstrip
lstrip-IsWord [] h = refl
lstrip-IsWord (c ∷ cs) h = rw (h.0)

pub All-reverse {κ} : (P : ℕ → Type κ) (s : Text) → All P s → All P (reverse s)
All-reverse P [] h = h
All-reverse P (c ∷ cs) h =
    rw (reverse-append (c ∷ []) cs)
      (All-append P (reverse cs) (c ∷ []) (All-reverse P cs h.1) (h.0, tt))

pub strip-IsWord : (s : Text) → IsWord s → strip s ≡ s
unfolding strip
strip-IsWord s h =
    rw (lstrip-IsWord s h, lstrip-IsWord (reverse s) (All-reverse IsPlain s h)) (reverse-reverse s)

lstrip-split_from : (s : Text) → split_from [] (lstrip s) ≡ split_from [] s
unfolding lstrip split_from
lstrip-split_from [] = refl
lstrip-split_from (c ∷ cs) = elim (Bool-cases (is_space c)) [
  | inl space ↦ rw space (lstrip-split_from cs)
  | inr plain ↦ rw plain (rw plain)
]

-- A space at the end makes no word.
split_from-last :
    (s word : Text) (c : ℕ) → is_space c ≡ true → split_from word (s ++ c ∷ []) ≡ split_from word s
unfolding split_from
split_from-last [] word c h = rw h
split_from-last (d ∷ ds) word c h = elim (Bool-cases (is_space d)) [
  | inl space ↦ rw space (ap (emit word) (split_from-last ds [] c h))
  | inr plain ↦ rw plain (split_from-last ds (word ++ d ∷ []) c h)
]

reverse-lstrip-split_from :
    (r word : Text) → split_from word (reverse (lstrip r)) ≡ split_from word (reverse r)
unfolding lstrip
reverse-lstrip-split_from [] word = refl
reverse-lstrip-split_from (c ∷ cs) word = elim (Bool-cases (is_space c)) [
  | inl space ↦
      rw (space, reverse-append (c ∷ []) cs)
        (reverse-lstrip-split_from cs word ∙ sym (split_from-last (reverse cs) word c space))
  | inr plain ↦ rw plain
]

-- `strip` in front of `split` changes nothing.
pub split-strip : (s : Text) → split (strip s) ≡ split s
unfolding split strip
split-strip s =
    reverse-lstrip-split_from (reverse (lstrip s)) [] ∙ rw reverse-reverse (lstrip-split_from s)

-- A line of words: one space between two of them, and a line feed at the end.
abbrev pub line : List Text → Text
line [] = 10 ∷ []
line (w ∷ []) = w ++ 10 ∷ []
line (w ∷ v ∷ ws) = w ++ 32 ∷ line (v ∷ ws)

-- A word of one character at least.
pub record IsToken (w : Text) : Type 0 where
  pub plain : IsWord w
  pub some_text : w ≢ []

split_from-append :
    (w word s : Text) → IsWord w → split_from word (w ++ s) ≡ split_from (word ++ w) s
unfolding split_from
split_from-append [] word s h = rw append-nil
split_from-append (c ∷ cs) word s h =
    rw (h.0) (split_from-append cs (word ++ c ∷ []) s h.1 ∙ rw append_assoc)

token_then :
    (w : Text) (c : ℕ) (s : Text)
    → IsToken w
    → is_space c ≡ true
    → split_from [] (w ++ c ∷ s) ≡ w ∷ split_from [] s
token_then [] c s h space = absurd (h.some_text refl)
token_then (d ∷ ds) c s h space =
    split_from-append (d ∷ ds) [] (c ∷ s) h.plain ∙ unfold split_from in rw space

-- `split` gives back the words of a line.
pub split-line : (ws : List Text) → All IsToken ws → split (line ws) ≡ ws
unfolding split is_space split_from
split-line [] h = refl
split-line (w ∷ []) h = token_then w 10 [] h.0 refl
split-line (w ∷ v ∷ ws) h =
    token_then w 32 (line (v ∷ ws)) h.0 refl ∙ ap (λ l. w ∷ l) (split-line (v ∷ ws) h.1)
