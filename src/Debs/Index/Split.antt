-- ===== src/Debs/Index/Split.antt =====
-- `split` on one character and on an empty line, of texts that are joined by these.
use embeded_convey_belt.Prelude.{
  ℕ, ◌≡◌, ◌∙◌, refl, ap, true, false, List, [], ◌∷◌, ◌++◌, All, ◌==◌, append-nil, append_assoc,
  arith,
}
use embeded_convey_belt.Py.{Text}
use embeded_convey_belt.Py.Str.{contains}
use embeded_convey_belt.Debs.Index.{split_on, split_blocks, is_empty}

-- Each part behind a separator.
abbrev pub tail_on : ℕ → List Text → Text
tail_on c [] = []
tail_on c (w ∷ ws) = c ∷ (w ++ tail_on c ws)

-- c.join(ws) of at least one text
abbrev pub joined_by : ℕ → Text → List Text → Text
joined_by c w ws = w ++ tail_on c ws

abbrev pub IsWithout : ℕ → Text → Type 0
IsWithout c w = All (λ d. d == c ≡ false) w

pub IsWithout-by_check : (c : ℕ) (w : Text) → contains c w ≡ false → IsWithout c w
IsWithout-by_check c [] h = tt
IsWithout-by_check c (d ∷ ds) h = (ground arith, IsWithout-by_check c ds (ground arith))

split_on-append :
    (c : ℕ) (word w s : Text) → IsWithout c w → split_on c word (w ++ s) ≡ split_on c (word ++ w) s
split_on-append c word [] s h = rw (append-nil word) refl
split_on-append c word (d ∷ ds) s h = rw h.0 (
    split_on-append c (word ++ d ∷ []) ds s h.1
    ∙ ap (λ w. split_on c w s) (append_assoc word (d ∷ []) ds))

split_on-tail_on :
    (c : ℕ) (word : Text) (ws : List Text)
    → c == c ≡ true
    → All (λ w. IsWithout c w) ws
    → split_on c word (tail_on c ws) ≡ word ∷ ws
split_on-tail_on c word [] same h = refl
split_on-tail_on c word (w ∷ ws) same h =
    rw (same, split_on-append c [] w (tail_on c ws) h.0)
      (ap (◌∷◌ word) (split_on-tail_on c w ws same h.1))

pub split_on-joined_by :
    (c : ℕ) (w : Text) (ws : List Text)
    → c == c ≡ true
    → IsWithout c w
    → All (λ v. IsWithout c v) ws
    → split_on c [] (joined_by c w ws) ≡ w ∷ ws
split_on-joined_by c w ws same h k =
    split_on-append c [] w (tail_on c ws) h ∙ split_on-tail_on c w ws same k

-- A line of a block: some text without a line break.
abbrev pub IsLine : Text → Type 0
IsLine w = IsWithout 10 w × (is_empty w ≡ false)

split_blocks-append :
    (word w : Text) (c : ℕ) (s : Text)
    → IsWithout 10 w
    → split_blocks word (w ++ c ∷ s) ≡ split_blocks (word ++ w) (c ∷ s)
split_blocks-append word [] c s h = rw (append-nil word) refl
split_blocks-append word (d ∷ []) c s h = rw h.0 refl
split_blocks-append word (d ∷ e ∷ es) c s h = rw h.0 (
    split_blocks-append (word ++ d ∷ []) (e ∷ es) c s h.1
    ∙ ap (λ w. split_blocks w (c ∷ s)) (append_assoc word (d ∷ []) (e ∷ es)))

split_blocks-line :
    (word w : Text) (ws : List Text) (s : Text)
    → IsWithout 10 w
    → split_blocks word ((w ++ tail_on 10 ws) ++ 10 ∷ 10 ∷ s)
      ≡ split_blocks (word ++ w) (tail_on 10 ws ++ 10 ∷ 10 ∷ s)
split_blocks-line word w [] s h =
    rw (append_assoc w [] (10 ∷ 10 ∷ s)) (split_blocks-append word w 10 (10 ∷ s) h)
split_blocks-line word w (v ∷ vs) s h =
    rw (append_assoc w (tail_on 10 (v ∷ vs)) (10 ∷ 10 ∷ s))
      (split_blocks-append word w 10 ((v ++ tail_on 10 vs) ++ 10 ∷ 10 ∷ s) h)

split_blocks-tail_on :
    (word : Text) (ws : List Text) (s : Text)
    → All IsLine ws
    → split_blocks word (tail_on 10 ws ++ 10 ∷ 10 ∷ s) ≡ (word ++ tail_on 10 ws) ∷ split_blocks [] s
split_blocks-tail_on word [] s h = rw (append-nil word) refl
split_blocks-tail_on word ([] ∷ ws) s h = cc
split_blocks-tail_on word ((c ∷ cs) ∷ ws) s h =
    let line = c ∷ cs in
    let after = (word ++ 10 ∷ []) ++ line in
    rw h.0.0.0 (
      split_blocks-line (word ++ 10 ∷ []) line ws s h.0.0
      ∙ (split_blocks-tail_on after ws s h.1
          ∙ ap (λ w. w ∷ split_blocks [] s)
              (append_assoc (word ++ 10 ∷ []) line (tail_on 10 ws)
                ∙ append_assoc word (10 ∷ []) (line ++ tail_on 10 ws))))

-- The block in front of an empty line.
pub split_blocks-block :
    (w : Text) (ws : List Text) (s : Text)
    → All IsLine (w ∷ ws)
    → split_blocks [] (joined_by 10 w ws ++ 10 ∷ 10 ∷ s) ≡ joined_by 10 w ws ∷ split_blocks [] s
split_blocks-block w ws s h = split_blocks-line [] w ws s h.0.0 ∙ split_blocks-tail_on w ws s h.1
