-- ===== src/Event.antt =====
-- `_parse_value` and `parse_event` of conveyor_event_daemon.py.
pub mod Fields
pub mod Json
pub mod Loads
use embeded_convey_belt.Prelude.{ℕ, Option, none, some, List, [], ◌∷◌, if◌then◌else◌}
use embeded_convey_belt.Py.{Result, ok, err, value_error, Text, text, ◌>>=◌}
use embeded_convey_belt.Py.Str.{strip, split, contains, before, behind, starts_with, text_eq}
use embeded_convey_belt.Py.Int.{ℤ, parse_int}

-- The values of an event: an integer, a text, or a float by its decimal form.
pub data Value : Type 0 where
  num : ℤ → Value
  str : Text → Value
  real : Text → Value

-- A Python `dict` with its order of insertion.
abbrev pub Event : Type 0
Event = List (Text × Value)

-- event[k] = v
unfoldable pub assign : Text → Value → Event → Event
assign k v [] = (k, v) ∷ []
assign k v ((j, w) ∷ ev) =
    let rest = assign k v ev in if text_eq j k then (k, v) ∷ ev else (j, w) ∷ rest

-- event.get(k)
unfoldable pub get : Text → Event → Option Value
get k [] = none
get k ((j, w) ∷ ev) = if text_eq j k then some w else get k ev

-- except ValueError: return v
abbrev or_text : Text → Result ℤ → Result Value
or_text v (ok n) = ok (num n)
or_text v (err value_error) = ok (str v)
or_text v (err e) = err e

unfoldable pub parse_value : Text → Result Value
parse_value v =
    if starts_with v (text "0x")
    then (do n ← parse_int 16 v; ok (num n))
    else or_text v (parse_int 10 v)

-- One round of the loop over the tokens.
unfoldable pub parse_token : Text → Event → Result Event
unfolding parse_value assign
parse_token token event =
    if contains b'=' token
    then (do v ← parse_value (behind b'=' token); ok (assign (before b'=' token) v event))
    else err value_error

unfoldable pub parse_tokens : List Text → Event → Result Event
parse_tokens [] event = ok event
parse_tokens (token ∷ tokens) event = do
  event' ← parse_token token event
  parse_tokens tokens event'

-- `now` is what `time.time()` returns.
unfoldable pub parse_event : Text → Text → Result Event
parse_event now line = do
  event ← parse_tokens (split (strip line)) []
  ok (
      assign (text "created_at") (real now)
        (assign (text "source") (str (text "conveyor_node")) event))
