-- ===== src/Driver/Line.antt =====
-- What conveyor_event_daemon.py reads from a line of the driver.
use embeded_convey_belt.Prelude.{◌≡◌, refl, List, [], ◌∷◌, map, All, true, false}
use embeded_convey_belt.Py.{ok, Text, text}
use embeded_convey_belt.Py.Str.{is_space, strip, contains}
use embeded_convey_belt.Py.Str.Words.{line, all_plain, IsWord-by_check}
use embeded_convey_belt.Py.Int.{pos, show_int, parse_int, unsigned, digit_value}
use embeded_convey_belt.Event.{num, str, real, Event, assign, parse_event}
use embeded_convey_belt.Event.Fields.{
  Content, integer, hex, word, Field, IsGood, IsReadable, shown, token, parse_event-line,
}
use embeded_convey_belt.Driver.{
  ConveyorEvent, TiltState, level, tilted, BlockageState, clear, blocked, ConveyorState, running_ok,
  blockage_alert, structural_fault, critical_fault, tilt_name, blockage_name, conveyor_name,
  format_event,
}

abbrev fields : ConveyorEvent → List Field
fields ev =
    record { key = text "ts"; content = integer (pos ev.ts_ns) }
    ∷ record { key = text "state"; content = word (conveyor_name ev.state) }
    ∷ record { key = text "tilt"; content = word (tilt_name ev.tilt) }
    ∷ record { key = text "blockage"; content = word (blockage_name ev.blockage) }
    ∷ record { key = text "distance_cm"; content = integer ev.distance_cm }
    ∷ record { key = text "light"; content = integer ev.light_value }
    ∷ record { key = text "reason"; content = hex ev.reason_flags }
    ∷ []

format_event-line : (ev : ConveyorEvent) → format_event ev ≡ line (map token (fields ev))
unfolding format_event shown show_int
format_event-line ev = refl

key-IsGood :
    (k : Text) (c : Content)
    → all_plain k ≡ true
    → contains b'=' k ≡ false
    → IsReadable c
    → IsGood (record { key = k; content = c })
key-IsGood k c plain without h = record {
  key_word = IsWord-by_check k plain;
  no_equals = without;
  readable = h;
}

state-IsReadable : (s : ConveyorState) → IsReadable (word (conveyor_name s))
unfolding conveyor_name is_space parse_int strip unsigned digit_value
state-IsReadable running_ok = (IsWord-by_check (text "RUNNING_OK") refl, refl, refl)
state-IsReadable blockage_alert = (IsWord-by_check (text "BLOCKAGE_ALERT") refl, refl, refl)
state-IsReadable structural_fault = (IsWord-by_check (text "STRUCTURAL_FAULT") refl, refl, refl)
state-IsReadable critical_fault = (IsWord-by_check (text "CRITICAL_FAULT") refl, refl, refl)

tilt-IsReadable : (s : TiltState) → IsReadable (word (tilt_name s))
unfolding tilt_name is_space parse_int strip unsigned digit_value
tilt-IsReadable level = (IsWord-by_check (text "LEVEL") refl, refl, refl)
tilt-IsReadable tilted = (IsWord-by_check (text "TILTED") refl, refl, refl)

blockage-IsReadable : (s : BlockageState) → IsReadable (word (blockage_name s))
unfolding blockage_name is_space parse_int strip unsigned digit_value
blockage-IsReadable clear = (IsWord-by_check (text "CLEAR") refl, refl, refl)
blockage-IsReadable blocked = (IsWord-by_check (text "BLOCKED") refl, refl, refl)

fields-IsGood : (ev : ConveyorEvent) → All IsGood (fields ev)
unfolding is_space
fields-IsGood ev = (
  key-IsGood (text "ts") _ refl refl tt,
  (
    key-IsGood (text "state") _ refl refl (state-IsReadable ev.state),
    (
      key-IsGood (text "tilt") _ refl refl (tilt-IsReadable ev.tilt),
      (
        key-IsGood (text "blockage") _ refl refl (blockage-IsReadable ev.blockage),
        (
          key-IsGood (text "distance_cm") _ refl refl tt,
          (
            key-IsGood (text "light") _ refl refl tt,
            (key-IsGood (text "reason") _ refl refl tt, tt),
          ),
        ),
      ),
    ),
  ),
)

-- The values of a driver event, and what `parse_event` adds.
abbrev pub parsed : Text → ConveyorEvent → Event
parsed now ev =
    (text "ts", num (pos ev.ts_ns))
    ∷ (text "state", str (conveyor_name ev.state))
    ∷ (text "tilt", str (tilt_name ev.tilt))
    ∷ (text "blockage", str (blockage_name ev.blockage))
    ∷ (text "distance_cm", num ev.distance_cm)
    ∷ (text "light", num ev.light_value)
    ∷ (text "reason", num (pos ev.reason_flags))
    ∷ (text "source", str (text "conveyor_node"))
    ∷ (text "created_at", real now)
    ∷ []

-- From every line that the driver writes, `parse_event` makes the dictionary of the event's values,
-- in the order of the line, with `source` and `created_at` behind them.
pub parse_event-format_event :
    (now : Text) (ev : ConveyorEvent) → parse_event now (format_event ev) ≡ ok (parsed now ev)
unfolding assign
parse_event-format_event now ev =
    rw format_event-line (parse_event-line now (fields ev) (fields-IsGood ev))
