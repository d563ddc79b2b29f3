-- ===== src/Subscriber/Display.antt =====
-- `main` of broker/conveyor_subscriber.py: the line that it prints for a message, and the exceptions that
-- end the program, since nothing in `main` but the JSON error is caught.
pub mod Columns
pub mod Shown
pub mod Stopped
mod Examples
use embeded_convey_belt.Prelude.{
  ℕ, zero, suc, ◌-◌, Option, none, some, true, false, List, [], ◌∷◌, ◌++◌, length, ltb,
  if◌then◌else◌,
}
use embeded_convey_belt.Py.{
  Exc, Result, ok, err, json_decode_error, attribute_error, type_error, value_error, Text, text,
  ◌>>=◌,
}
use embeded_convey_belt.Py.Int.{ℤ, pos, negsuc, show_nat, show_int}
use embeded_convey_belt.Py.Str.{text_eq}
use embeded_convey_belt.Py.Utf8.{encode}
use embeded_convey_belt.Py.Clock.{wall_clock}
use embeded_convey_belt.Py.Json.{Json, null, bool, num, real, str, arr, obj, Fields, lookup}
use embeded_convey_belt.Py.Json.Loads.{loads}
use embeded_convey_belt.Net.{Attempt}
use embeded_convey_belt.Subscriber.{Output, message, broker_error, mqtt_messages}

-- STATE_ICON.get(state, '??? ')
unfoldable pub state_icon : Text → Text
state_icon s =
    if text_eq s (text "RUNNING_OK")
    then text "OK  "
    else if text_eq s (text "BLOCKAGE_ALERT")
    then text "BLOK"
    else if text_eq s (text "STRUCTURAL_FAULT")
    then text "STRC"
    else if text_eq s (text "CRITICAL_FAULT")
    then text "CRIT"
    else text "??? "

-- A list or a dictionary cannot be a key.
abbrev pub icon_of : Json → Result Text
icon_of (str s) = ok (state_icon s)
icon_of (arr xs) = err type_error
icon_of (obj fs) = err type_error
icon_of null = ok (text "??? ")
icon_of (bool b) = ok (text "??? ")
icon_of (num z) = ok (text "??? ")
icon_of (real r) = ok (text "??? ")

-- ev.get(k, default)
abbrev pub get_or : Text → Json → Fields → Json
get_or k default ev = elim (lookup k ev) [ none ↦ default | some v ↦ v ]

abbrev pub replicate : ℕ → ℕ → Text
replicate zero c = []
replicate (suc n) c = c ∷ replicate n c

-- {v:<Ns}, which is {v:Ns} too: strings only
abbrev pub left : ℕ → Json → Result Text
left width (str s) = ok (s ++ replicate (width - length s) 32)
left width null = err type_error
left width (arr xs) = err type_error
left width (obj fs) = err type_error
left width (bool b) = err value_error
left width (num z) = err value_error
left width (real r) = err value_error

abbrev pub right_text : ℕ → Text → Result Text
right_text width s = ok (replicate (width - length s) 32 ++ s)

-- {v:02x}; the sign counts for the width.
abbrev pub two_hex : ℤ → Text
two_hex (pos n) = replicate (2 - length (show_nat 16 n)) b'0' ++ show_nat 16 n
two_hex (negsuc n) =
    b'-' ∷ (replicate (1 - length (show_nat 16 (suc n))) b'0' ++ show_nat 16 (suc n))

abbrev pub hex_code : Json → Result Text
hex_code (num z) = ok (two_hex z)
hex_code (bool true) = ok (text "01")
hex_code (bool false) = ok (text "00")
hex_code null = err type_error
hex_code (arr xs) = err type_error
hex_code (obj fs) = err type_error
hex_code (str s) = err value_error
hex_code (real r) = err value_error

-- print(line), where the output is UTF-8: a surrogate, which JSON can escape, is a UnicodeEncodeError.
abbrev pub if_encoded : Text → Result (List ℕ) → Result Text
if_encoded line (ok bytes) = ok line
if_encoded line (err e) = err e

abbrev pub print_line : Result Text → Result Text
print_line (ok line) = if_encoded line (encode line)
print_line (err e) = err e

-- What the program has printed, and the exception that ended it, if one did.
pub data Line : Type 0 where
  out : Text → Line
  broker : Exc → Line

-- `local` renders a number of seconds, `float` gives the text of a float from its decimal form, and `now`
-- is the time at which a message is handled.
module _ (local : Text → Result Text) (float : Text → Text) where
  -- {v:>N}: `True` and `False` are numbers here.
  abbrev pub right : ℕ → Json → Result Text
  right width (str s) = right_text width s
  right width (num z) = right_text width (show_int z)
  right width (real r) = right_text width (float r)
  right width (bool true) = right_text width (text "1")
  right width (bool false) = right_text width (text "0")
  right width null = err type_error
  right width (arr xs) = err type_error
  right width (obj fs) = err type_error

  -- The line of an event. The values are formatted in the order of the line.
  unfoldable pub event_line : Text → Fields → Result Text
  event_line now ev = do
    let unknown = str (text "?")
    icon ← icon_of (get_or (text "state") unknown ev)
    wall ← wall_clock local now (get_or (text "created_at") (num (pos 0)) ev)
    node ← left 12 (get_or (text "node_id") unknown ev)
    state ← left 18 (get_or (text "state") unknown ev)
    tilt ← left 7 (get_or (text "tilt") unknown ev)
    blockage ← left 8 (get_or (text "blockage") unknown ev)
    dist ← right 4 (get_or (text "distance_cm") unknown ev)
    light ← right 5 (get_or (text "light") unknown ev)
    reason ← hex_code (get_or (text "reason") (num (pos 0)) ev)
    ok (
        text "["
        ++ (wall
            ++ (text "] ["
                ++ (icon
                    ++ (text "] "
                        ++ (node
                            ++ (text " state="
                                ++ (state
                                    ++ (text " tilt="
                                        ++ (tilt
                                            ++ (text " blockage="
                                                ++ (blockage
                                                    ++ (text " dist="
                                                        ++ (dist
                                                            ++ (text "cm light="
                                                            ++ (light
                                                            ++ (text "  reason=0x"
                                                            ++ reason)))))))))))))))))

  abbrev pub value_line : Text → Json → Result Text
  value_line now (obj ev) = event_line now ev
  value_line now v = err attribute_error

  -- except json.JSONDecodeError: print(payload); continue
  abbrev pub line_of : Text → Text → Result Json → Result Text
  line_of now payload (ok v) = value_line now v
  line_of now payload (err json_decode_error) = ok payload
  line_of now payload (err e) = err e

  -- The body of the `for`, where `rest` is what is printed for the later messages.
  abbrev pub and_then : Result Text → List Line × Option Exc → List Line × Option Exc
  and_then (ok line) (lines, ended_by) = (out line ∷ lines, ended_by)
  and_then (err e) rest = ([], some e)

  -- The `for` over what `mqtt_messages` yields and prints; `clock k` is the time at its k-th step.
  unfoldable pub display : (ℕ → Text) → ℕ → List Output → List Line × Option Exc
  display clock k [] = ([], none)
  display clock k (message t payload ∷ outputs) =
      and_then (print_line (line_of (clock k) payload (loads payload)))
        (display clock (suc k) outputs)
  display clock k (broker_error e ∷ outputs) =
      let (lines, ended_by) = display clock (suc k) outputs in (broker e ∷ lines, ended_by)

  -- `main` with the given topic, over the outcomes of `create_connection`.
  unfoldable pub main : (ℕ → Text) → Text → List Attempt → List Line × Option Exc
  main clock topic attempts = display clock 0 (mqtt_messages (text "conveyor-sub") topic attempts)
