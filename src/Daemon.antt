-- ===== src/Daemon.antt =====
-- `main` of conveyor_event_daemon.py: one line of the device, the lines of one opening of it, and the
-- loop that connects again.
pub mod Lines
pub mod EndToEnd
pub mod Broken
pub mod Loads
pub mod Round
pub mod Sample
mod Examples
use embeded_convey_belt.Prelude.{ℕ, Option, none, some, List, [], ◌∷◌, ◌++◌}
use embeded_convey_belt.Py.{Exc, Result, ok, err, os_error, Text, text}
use embeded_convey_belt.Net.{Net, Attempt}
use embeded_convey_belt.Event.{Event, str, assign, parse_event}
use embeded_convey_belt.Event.Json.{dumps}
use embeded_convey_belt.Publisher.{MqttPublisher, fresh, connect, publish, disconnect}

-- What reading the device gives: a line and the time at which it is handled, or an exception. Behind
-- the list the device is at its end.
pub data Reading : Type 0 where
  a_line : Text → Text → Reading
  read_error : Exc → Reading

pub data Device : Type 0 where
  missing : Device
  opened : List Reading → Device

-- What the daemon prints: a payload on stdout, or an error on stderr.
pub data Log : Type 0 where
  payload : Text → Log
  line_error : Exc → Log
  broker_error : Exc → Log

-- ev['node_id'] = args.node_id, and json.dumps
abbrev pub payload_of : Text → Event → Text
payload_of node_id ev = dumps (assign (text "node_id") (str node_id) ev)

module _ (topic node_id : Text) where
  abbrev printed : Text → Result (Unit {0}) × MqttPublisher → Log × MqttPublisher
  printed content (ok _, pub_state) = (payload content, pub_state)
  printed content (err e, pub_state) = (line_error e, pub_state)

  abbrev publish_event : Result Event → MqttPublisher → Log × MqttPublisher
  publish_event (ok ev) pub_state =
      printed (payload_of node_id ev) (publish topic (payload_of node_id ev) pub_state)
  publish_event (err e) pub_state = (line_error e, pub_state)

  -- The inner `try`: any exception of a line is printed, and the loop goes on.
  unfoldable pub handle_line : Text → Text → MqttPublisher → Log × MqttPublisher
  handle_line now line pub_state = publish_event (parse_event now line) pub_state

  -- for line in dev. The exception that ended it, if it was not the end of the device.
  unfoldable pub read_lines : List Reading → MqttPublisher → List Log × Option Exc × MqttPublisher
  read_lines [] pub_state = ([], none, pub_state)
  read_lines (read_error e ∷ readings) pub_state = ([], some e, pub_state)
  read_lines (a_line now line ∷ readings) pub_state =
      let (log, pub_state') = handle_line now line pub_state in
      let (logs, ended_by, pub_state'') = read_lines readings pub_state' in
      (log ∷ logs, ended_by, pub_state'')

  abbrev raised : Option Exc → List Log
  raised none = []
  raised (some e) = broker_error e ∷ []

  -- with open(args.dev)
  abbrev serve_device : Device → MqttPublisher → List Log × Option Exc × MqttPublisher
  serve_device missing pub_state = ([], some os_error, pub_state)
  serve_device (opened readings) pub_state = read_lines readings pub_state

  -- with MqttPublisher(...): the socket is closed at the end only if `connect` returned.
  abbrev serve : Device → Result (Unit {0}) × MqttPublisher → List Log × Option Net
  serve device (err e, pub_state) = (broker_error e ∷ [], pub_state.sock)
  serve device (ok _, pub_state) =
      let (logs, ended_by, pub_state') = serve_device device pub_state in
      (logs ++ raised ended_by, (disconnect pub_state').0)

  -- One round of `while True`: what it prints, and the socket at its end.
  unfoldable pub round : Text → Attempt → Device → List Log × Option Net
  round client_id attempt device = serve device (connect attempt (fresh client_id))

  unfoldable pub run : Text → List (Attempt × Device) → List (List Log × Option Net)
  run client_id [] = []
  run client_id ((attempt, device) ∷ rounds) = round client_id attempt device ∷ run client_id rounds
