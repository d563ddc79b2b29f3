-- ===== src/Py/Str.antt =====
-- `str` methods: equality, `strip`, `split` on whitespace, `in`, `startswith` and `split(sep, 1)`.
pub mod Words
pub mod Kept
pub mod Trim
use embeded_convey_belt.Prelude.{
  ℕ, Bool, true, false, ◌&&◌, ◌||◌, List, [], ◌∷◌, ◌++◌, leb, ◌==◌, if◌then◌else◌,
}
use embeded_convey_belt.Py.{Text}
use mathlib.Core.List.{reverse}

abbrev pub text_eq : Text → Text → Bool
text_eq [] [] = true
text_eq [] (d ∷ ds) = false
text_eq (c ∷ cs) [] = false
text_eq (c ∷ cs) (d ∷ ds) = c == d && text_eq cs ds

-- The code points that `str.isspace` names, which `strip` and `split` go by.
unfoldable pub is_space : ℕ → Bool
is_space c =
    leb 9 c && leb c 13
    || leb 28 c && leb c 32
    || c == 0x85
    || c == 0xa0
    || c == 0x1680
    || leb 0x2000 c && leb c 0x200a
    || c == 0x2028
    || c == 0x2029
    || c == 0x202f
    || c == 0x205f
    || c == 0x3000

pub lstrip : Text → Text
lstrip [] = []
lstrip (c ∷ cs) = let rest = lstrip cs in if is_space c then rest else c ∷ cs

unfoldable pub strip : Text → Text
unfolding lstrip
strip s = reverse (lstrip (reverse (lstrip s)))

-- A word that is not empty goes in front.
abbrev pub emit : Text → List Text → List Text
emit [] words = words
emit (c ∷ cs) words = (c ∷ cs) ∷ words

-- `word` is what has been read of the current word.
unfoldable pub split_from : Text → Text → List Text
split_from word [] = emit word []
split_from word (c ∷ cs) =
    let next = emit word (split_from [] cs) in
    let longer = split_from (word ++ c ∷ []) cs in if is_space c then next else longer

unfoldable pub split : Text → List Text
unfolding split_from
split s = split_from [] s

-- c in s
abbrev pub contains : ℕ → Text → Bool
contains c [] = false
contains c (d ∷ ds) = d == c || contains c ds

-- s.split(c, 1) of a text that contains c
abbrev pub before : ℕ → Text → Text
before c [] = []
before c (d ∷ ds) = if d == c then [] else d ∷ before c ds

abbrev pub behind : ℕ → Text → Text
behind c [] = []
behind c (d ∷ ds) = if d == c then ds else behind c ds

-- s.startswith(p)
abbrev pub starts_with : Text → Text → Bool
starts_with s [] = true
starts_with [] (d ∷ ds) = false
starts_with (c ∷ cs) (d ∷ ds) = c == d && starts_with cs ds
