-- ===== src/Subscriber/Display/Shown.antt =====
-- What the subscriber prints for the daemon's messages.
use embeded_convey_belt.Prelude.{
  ℕ, suc, ◌≡◌, refl, ap, none, some, List, [], ◌∷◌, ◌++◌, append-nil, map, All, length, arith,
}
use embeded_convey_belt.Py.{Exc, ok, eof_error, Text, text}
use embeded_convey_belt.Py.Utf8.{IsScalar, encode}
use embeded_convey_belt.Py.Utf8.RoundTrip.{decode-encode}
use embeded_convey_belt.Net.{Net, connected}
use embeded_convey_belt.Net.Stream.{bytes, stream}
use embeded_convey_belt.Wire.Names.{Fits}
use embeded_convey_belt.Wire.Packets.{connect_packet, subscribe_packet}
use embeded_convey_belt.Event.{str, assign}
use embeded_convey_belt.Event.Loads.{of_event, IsSound-assign, loads-dumps_event}
use embeded_convey_belt.Driver.{
  ConveyorEvent, ConveyorState, running_ok, blockage_alert, structural_fault, critical_fault,
  conveyor_name,
}
use embeded_convey_belt.Driver.Line.{parsed}
use embeded_convey_belt.Driver.Sound.{parsed-IsSound}
use embeded_convey_belt.Publisher.{MqttPublisher}
use embeded_convey_belt.Daemon.{read_lines}
use embeded_convey_belt.Daemon.EndToEnd.{
  Timed, readings, payloads, IsUsual, AllReal, sent_since, read_lines-connection,
}
use embeded_convey_belt.Subscriber.{broker_error, outputs, mqtt_messages}
use embeded_convey_belt.Subscriber.Display.{
  state_icon, if_encoded, Line, out, broker, event_line, display, main,
}
use embeded_convey_belt.Subscriber.Display.Columns.{icon, driver_line, driver_line-IsScalar}

state_icon-conveyor_name : (s : ConveyorState) → state_icon (conveyor_name s) ≡ icon s
unfolding state_icon conveyor_name
state_icon-conveyor_name running_ok = refl
state_icon-conveyor_name blockage_alert = refl
state_icon-conveyor_name structural_fault = refl
state_icon-conveyor_name critical_fault = refl

module _ (wall : Text → Text) (float : Text → Text) where
  event_line-parsed :
      (now time node_id : Text) (ev : ConveyorEvent)
      → event_line
          (λ t. ok (wall t))
          float
          time
          (of_event (assign (text "node_id") (str node_id) (parsed now ev)))
        ≡ ok (driver_line (wall now) node_id ev)
  unfolding event_line assign
  event_line-parsed now time node_id ev = rw (state_icon-conveyor_name ev.state) refl

  driver_line-printed :
      (t node_id : Text) (ev : ConveyorEvent)
      → All IsScalar (wall t)
      → All IsScalar node_id
      → if_encoded (driver_line (wall t) node_id ev) (encode (driver_line (wall t) node_id ev))
        ≡ ok (driver_line (wall t) node_id ev)
  driver_line-printed t node_id ev hw hn =
      let line = driver_line (wall t) node_id ev in
      ap (if_encoded line) (decode-encode line (driver_line-IsScalar (wall t) node_id ev hw hn)).1

  abbrev pub driver_lines : Text → List Timed → List Line
  driver_lines node_id [] = []
  driver_lines node_id ((now, ev) ∷ evs) =
      out (driver_line (wall now) node_id ev) ∷ driver_lines node_id evs

  display-payloads :
      (clock : ℕ → Text) (k : ℕ) (topic node_id : Text) (evs : List Timed) (e : Exc)
      → AllReal evs
      → All IsScalar node_id
      → ((t : Text) → All IsScalar (wall t))
      → display
          (λ t. ok (wall t))
          float
          clock
          k
          (outputs (map (λ p. (topic, p)) (payloads node_id evs)) ++ broker_error e ∷ [])
        ≡ (driver_lines node_id evs ++ broker e ∷ [], none)
  unfolding display
  display-payloads clock k topic node_id [] e h hn hw = refl
  display-payloads clock k topic node_id ((now, ev) ∷ evs) e h hn hw =
      let sound =
        IsSound-assign (text "node_id") (str node_id) (parsed now ev) (omega arith) hn
          (parsed-IsSound now ev h.0) in
      rw
        (
          loads-dumps_event (assign (text "node_id") (str node_id) (parsed now ev)) sound.0 sound.1,
          event_line-parsed now (clock k) node_id ev,
          driver_line-printed now node_id ev (hw now) hn,
          display-payloads clock (suc k) topic node_id evs e h.1 hn hw,
        )
        refl

  module _ (topic node_id : Text) (name : List ℕ) (scalar : All IsScalar topic)
      (fits : Fits topic name) where
    -- The daemon and the terminal together. The daemon, on a socket that accepts all, handles the lines
    -- that the driver makes of `evs`; what the socket has then sent reaches a subscriber whose broker
    -- accepts it, behind CONNACK and SUBACK and cut into segments anyhow. Then `main` of the subscriber
    -- prints one line for each event, in order, with its time, icon, node, states, distance, light and
    -- reason in their columns, then the end of the connection, and no exception ends the program. The times
    -- are printable decimal forms, each payload is below 2 ^ 27 characters, the node's id is of scalar
    -- values, the topic has an encoding that fits its length field, and local time is rendered as `wall`, in
    -- scalar values.
    pub main-driver_lines :
        (clock : ℕ → Text) (evs : List Timed) (net broker_net : Net) (self : MqttPublisher)
        (filter : Text) (hello request suback : List ℕ) (x y : ℕ)
        → IsUsual node_id evs
        → AllReal evs
        → All IsScalar node_id
        → ((t : Text) → All IsScalar (wall t))
        → self.sock ≡ some net
        → net.outcomes ≡ []
        → connect_packet (text "conveyor-sub") ≡ ok hello
        → subscribe_packet filter ≡ ok request
        → length suback ≡ 5
        → broker_net.outcomes ≡ []
        → stream broker_net.incoming
          ≡ bytes
              (0x20 ∷ x ∷ y ∷ 0 ∷ suback)
              (bytes (sent_since net (read_lines topic node_id (readings evs) self).2.sock) [])
        → main (λ t. ok (wall t)) float clock filter (connected broker_net ∷ [])
          ≡ (driver_lines node_id evs ++ broker eof_error ∷ [], none)
    unfolding main mqtt_messages
    main-driver_lines clock evs net broker_net self filter hello request suback x y usual real_times
          hn hw there accepting eh er size open_still arrives =
        let (yields, ended, printed) =
          read_lines-connection topic node_id name scalar fits evs net broker_net self
            (text "conveyor-sub") filter hello request suback x y usual there accepting eh er size
            open_still arrives in
        rw
          (
            yields,
            ended,
            append-nil (
                outputs (map (λ p. (topic, p)) (payloads node_id evs))
                ++ broker_error eof_error ∷ []),
          )
          (display-payloads clock 0 topic node_id evs eof_error real_times hn hw)
