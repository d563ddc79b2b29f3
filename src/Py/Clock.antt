-- ===== src/Py/Clock.antt =====
-- `time.strftime("%H:%M:%S", time.localtime(t))` by the type of t.
use embeded_convey_belt.Prelude.{true, false}
use embeded_convey_belt.Py.{Result, err, type_error, Text, text}
use embeded_convey_belt.Py.Int.{show_int}
use embeded_convey_belt.Py.Plain.{IsPlain}
use embeded_convey_belt.Py.Json.{Json, null, bool, num, real, str, arr, obj}

-- `local` gives it for a number t in decimal form. `None`
-- stands for the current time, `True` and `False` are numbers, and other values are refused.
abbrev pub wall_clock : (Text → Result Text) → Text → Json → Result Text
wall_clock local now null = local now
wall_clock local now (bool true) = local (text "1")
wall_clock local now (bool false) = local (text "0")
wall_clock local now (num z) = local (show_int z)
wall_clock local now (real r) = local r
wall_clock local now (str s) = err type_error
wall_clock local now (arr xs) = err type_error
wall_clock local now (obj fs) = err type_error

module _ (local : Text → Result Text) (plain : (t : Text) → IsPlain (local t)) where
  pub wall_clock-IsPlain : (now : Text) (v : Json) → IsPlain (wall_clock local now v)
  wall_clock-IsPlain now null = plain now
  wall_clock-IsPlain now (bool true) = plain (text "1")
  wall_clock-IsPlain now (bool false) = plain (text "0")
  wall_clock-IsPlain now (num z) = plain _
  wall_clock-IsPlain now (real r) = plain r
  wall_clock-IsPlain now (str s) = tt
  wall_clock-IsPlain now (arr xs) = tt
  wall_clock-IsPlain now (obj fs) = tt
