-- ===== src/Event/Json.antt =====
-- `json.dumps(ev, separators=(',', ':'))` of an event, in its default form with `ensure_ascii`.
pub mod Ascii
use embeded_convey_belt.Prelude.{
  ℕ, ◌+◌, ◌-◌, ◌/◌, ◌%◌, ◌&&◌, List, [], ◌∷◌, ◌++◌, ltb, leb, ◌==◌, if◌then◌else◌,
}
use embeded_convey_belt.Py.{Text, text}
use embeded_convey_belt.Py.Int.{digit_char, show_int}
use embeded_convey_belt.Event.{Value, num, str, real, Event}

-- \uXXXX
unfoldable pub unicode_escape : ℕ → Text
unicode_escape c =
    92
    ∷ b'u'
    ∷ digit_char (c / 4096 % 16)
    ∷ digit_char (c / 256 % 16)
    ∷ digit_char (c / 16 % 16)
    ∷ digit_char (c % 16)
    ∷ []

-- One character of a string; beyond 0xffff two surrogates stand for it.
unfoldable pub escape : ℕ → Text
escape c =
    if c == 34
    then 92 ∷ 34 ∷ []
    else if c == 92
    then 92 ∷ 92 ∷ []
    else if c == 10
    then 92 ∷ b'n' ∷ []
    else if c == 13
    then 92 ∷ b'r' ∷ []
    else if c == 9
    then 92 ∷ b't' ∷ []
    else if c == 12
    then 92 ∷ b'f' ∷ []
    else if c == 8
    then 92 ∷ b'b' ∷ []
    else if leb 32 c && leb c 126
    then c ∷ []
    else if ltb c 0x10000
    then unicode_escape c
    else unicode_escape (0xd800 + (c - 0x10000) / 1024)
      ++ unicode_escape (0xdc00 + (c - 0x10000) % 1024)

abbrev pub escapes : Text → Text
escapes [] = []
escapes (c ∷ cs) = escape c ++ escapes cs

abbrev pub quoted : Text → Text
quoted s = 34 ∷ (escapes s ++ 34 ∷ [])

abbrev pub dumps_value : Value → Text
dumps_value (num z) = show_int z
dumps_value (str s) = quoted s
dumps_value (real r) = r

abbrev pub members : Event → Text
members [] = []
members ((k, v) ∷ []) = quoted k ++ b':' ∷ dumps_value v
members ((k, v) ∷ kv ∷ ev) = quoted k ++ b':' ∷ (dumps_value v ++ b',' ∷ members (kv ∷ ev))

unfoldable pub dumps : Event → Text
unfolding escape unicode_escape
dumps ev = b'{' ∷ (members ev ++ b'}' ∷ [])
