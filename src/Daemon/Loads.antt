-- ===== src/Daemon/Loads.antt =====
-- The payload of the daemon, as a client reads it with `json.loads`.
use embeded_convey_belt.Prelude.{◌≡◌, All, arith}
use embeded_convey_belt.Py.{ok, Text, text}
use embeded_convey_belt.Py.Utf8.{IsScalar}
use embeded_convey_belt.Py.Json.{obj}
use embeded_convey_belt.Py.Json.Loads.{loads}
use embeded_convey_belt.Py.Json.Numbers.{IsReal}
use embeded_convey_belt.Event.{str, Event, assign, parse_event}
use embeded_convey_belt.Event.Loads.{
  of_event, IsSound-assign, parse_event-IsSound, loads-dumps_event,
}
use embeded_convey_belt.Daemon.{payload_of}

-- Whatever line of scalar values the daemon accepts, `json.loads` reads its payload as the object of
-- the event's entries, with the same keys, values and order, and the node's id assigned last; the node
-- id is of scalar values, and `time.time()` has a decimal form.
pub loads-payload_of :
    (now line node_id : Text) (ev : Event)
    → All IsScalar line
    → All IsScalar node_id
    → IsReal now
    → parse_event now line ≡ ok ev
    → loads (payload_of node_id ev) ≡ ok (obj (of_event (assign (text "node_id") (str node_id) ev)))
loads-payload_of now line node_id ev h hn real_now e =
    let sound = parse_event-IsSound now line ev h real_now e in
    let with_node = IsSound-assign (text "node_id") (str node_id) ev (omega arith) hn sound in
    loads-dumps_event (assign (text "node_id") (str node_id) ev) with_node.0 with_node.1
