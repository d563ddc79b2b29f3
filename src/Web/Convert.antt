-- ===== src/Web/Convert.antt =====
-- The values of the script of the page of broker/conveyor_web.py: JavaScript's conversions, and the tables
-- of states and reasons. The names that every JavaScript object has (constructor, toString and the like) are
-- left out as states, and integers are exact, as JavaScript's are up to 2 ^ 53.
use embeded_convey_belt.Prelude.{
  ℕ, zero, suc, ◌-◌, ◌^◌, ◌%◌, ◌&&◌, Option, none, some, Bool, true, false, not, List, [], ◌∷◌,
  ◌++◌, bit_and, ltb, ◌==◌, if◌then◌else◌,
}
use embeded_convey_belt.Py.{Text, text}
use embeded_convey_belt.Py.Int.{pos, negsuc, show_int}
use mathlib.Core.Option
use embeded_convey_belt.Py.Str.{text_eq}
use embeded_convey_belt.Py.Json.{Json, null, bool, num, real, str, arr, obj, Fields, end}

-- How JavaScript converts the values: `text_of` is the text of a value that is no string and no integer, `is_zero` tells
-- of a float whether it is 0, and `int32` and `is_near` give `v | 0` and `v > 0 && v < 50` of a value that
-- is no integer. `none` is a TypeError, as of an object with a `toString` of its own.
pub record Coercions : Type 0 where
  pub text_of : Json → Option Text
  pub is_zero : Text → Bool
  pub int32 : Json → Option ℕ
  pub is_near : Json → Option Bool

-- '—'
abbrev pub dash : Text
dash = 0x2014 ∷ []

-- STATE_CLASS[s] || 'unknown', for the text of s
unfoldable pub class_of : Text → Text
class_of s =
    if text_eq s (text "RUNNING_OK")
    then text "ok"
    else if text_eq s (text "BLOCKAGE_ALERT")
    then text "blockage"
    else if text_eq s (text "STRUCTURAL_FAULT")
    then text "structural"
    else if text_eq s (text "CRITICAL_FAULT")
    then text "critical"
    else text "unknown"

abbrev pub reason_bits : List (ℕ × Text)
reason_bits =
    (0x01, text "TILT") ∷ (0x02, text "BLOK") ∷ (0x04, text "LITE") ∷ (0x08, text "DIST") ∷ []

unfoldable pub badge : Text → Text
badge label = text "<span class=\"badge\">" ++ (label ++ text "</span>")

-- .filter(([bit]) => r & bit).map(...).join('')
abbrev pub badges : ℕ → List (ℕ × Text) → Text
badges r [] = []
badges r ((bit, label) ∷ more) =
    let rest = badges r more in if bit_and r bit == 0 then rest else badge label ++ rest

-- An object's property; a value that is no object has none of those that the script reads.
abbrev pub fields_of : Json → Fields
fields_of (obj fs) = fs
fields_of v = end

-- v === s
abbrev pub is_text : Option Json → Text → Bool
is_text (some (str t)) s = text_eq t s
is_text v s = false

abbrev pub dist_class : Bool → Text
dist_class is_near = if is_near then text "cv-warn" else text "cv-neutral"

module _ (js : Coercions) where
  -- `${v}`
  abbrev pub string_of : Option Json → Option Text
  string_of none = some (text "undefined")
  string_of (some (str s)) = some s
  string_of (some (num z)) = some (show_int z)
  string_of (some v) = js.text_of v

  abbrev pub truthy : Option Json → Bool
  truthy none = false
  truthy (some null) = false
  truthy (some (bool b)) = b
  truthy (some (num (pos zero))) = false
  truthy (some (num (pos (suc n)))) = true
  truthy (some (num (negsuc n))) = true
  truthy (some (real r)) = not (js.is_zero r)
  truthy (some (str [])) = false
  truthy (some (str (c ∷ cs))) = true
  truthy (some (arr xs)) = true
  truthy (some (obj fs)) = true

  -- v || '—', and v ?? '—'
  unfoldable pub or_dash : Option Json → Option Text
  or_dash v = if truthy v then string_of v else some dash

  abbrev pub nullish_dash : Option Json → Option Text
  nullish_dash none = some dash
  nullish_dash (some null) = some dash
  nullish_dash (some v) = string_of (some v)

  abbrev pub int32_of : Json → Option ℕ
  int32_of (num (pos n)) = some (n % 2 ^ 32)
  int32_of (num (negsuc n)) = some (2 ^ 32 - 1 - n % 2 ^ 32)
  int32_of v = js.int32 v

  abbrev pub badges_of : Option Json → Option Text
  badges_of none = some []
  badges_of (some r) = Option.map (λ n. badges n reason_bits) (int32_of r)

  unfoldable pub decode_reason : Option Json → Option Text
  decode_reason r = if truthy r then badges_of r else some (badge dash)

  unfoldable pub state_class : Option Json → Option Text
  state_class s = Option.map class_of (string_of s)

  -- dist > 0 && dist < 50
  abbrev pub near : Option Json → Option Bool
  near (some (num (pos n))) = some (ltb 0 n && ltb n 50)
  near (some (num (negsuc n))) = some false
  near (some v) = js.is_near v
  near none = some false
