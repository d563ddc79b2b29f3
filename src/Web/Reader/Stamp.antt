-- ===== src/Web/Reader/Stamp.antt =====
-- What `_mqtt_reader` of broker/conveyor_web.py makes of a payload: the event with its `_wall` time.
use embeded_convey_belt.Prelude.{Option, none, some}
use embeded_convey_belt.Py.{Result, ok, err, json_decode_error, attribute_error, Text, text, ◌>>=◌}
use embeded_convey_belt.Py.Clock.{wall_clock}
use embeded_convey_belt.Py.Json.{Json, real, str, obj, Fields, lookup, set_field}

-- ev.get("created_at", time.time())
abbrev pub created_at : Text → Fields → Json
created_at now ev = elim (lookup (text "created_at") ev) [ none ↦ real now | some v ↦ v ]

-- ev["_wall"] = ...; a value that is no dictionary has no `get`.
abbrev pub stamp : (Text → Result Text) → Text → Json → Result (Option Fields)
stamp local now (obj ev) = do
  wall ← wall_clock local now (created_at now ev)
  ok (some (set_field (text "_wall") (str wall) ev))
stamp local now v = err attribute_error

-- except json.JSONDecodeError: continue
abbrev pub event_of : (Text → Result Text) → Text → Result Json → Result (Option Fields)
event_of local now (ok v) = stamp local now v
event_of local now (err json_decode_error) = ok none
event_of local now (err e) = err e
