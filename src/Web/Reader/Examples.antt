-- ===== src/Web/Reader/Examples.antt =====
-- The reader of the web server at concrete connections.
use embeded_convey_belt.Prelude.{ℕ, ◌≡◌, ◌≢◌, refl, List, [], ◌∷◌, ◌++◌, All, ap, take, arith}
use embeded_convey_belt.Py.{Result, ok, eof_error, attribute_error, os_error, stuck, Text, text}
use embeded_convey_belt.Py.Utf8.{encode, encode_char}
use embeded_convey_belt.Py.Struct.{pack_h}
use embeded_convey_belt.Py.Json.{Json, arr, nil, end, field, dumps_json}
use embeded_convey_belt.Py.Json.Scan.{scan_number}
use embeded_convey_belt.Py.Json.Loads.{loads, parse_json}
use embeded_convey_belt.Py.Json.Printed.{IsValid}
use embeded_convey_belt.Net.{Net, chunk, silence, put_back}
use embeded_convey_belt.Net.Stream.{bytes, stream, stream-put_back}
use embeded_convey_belt.Wire.Encode.{enc_str, enc_remlen}
use embeded_convey_belt.Wire.Packets.{
  connect_packet, subscribe_packet, publish_packet, ping_request,
}
use embeded_convey_belt.Subscriber.Delivery.{Traffic, published, quiet, IsWhole}
use embeded_convey_belt.Subscriber.Reconnect.{turned_away, accepted}
use embeded_convey_belt.Web.{stored, broadcasted, run, max_history}
use embeded_convey_belt.Web.Routes.{whole, sized, state_json, do_get, opened, newest}
use embeded_convey_belt.Web.Reader.{handle_events, acts, mqtt_error, mqtt_reader, listen}
use embeded_convey_belt.Web.Reader.Delivery.{listen-hears}
use embeded_convey_belt.Web.Reader.Progress.{listen-ends}
use embeded_convey_belt.Web.Reader.Reconnect.{calls, mqtt_reader-does}
use embeded_convey_belt.Web.Reader.Refused.{listen-no_object}
use embeded_convey_belt.Web.Reader.EndToEnd.{kept_all, json, read_lines-listen}
use embeded_convey_belt.Daemon.{read_lines}
use embeded_convey_belt.Daemon.EndToEnd.{readings, sent_since}
use embeded_convey_belt.Daemon.Sample.{
  alarms, topic-Fits, alarms-IsUsual, alarms-AllReal, fresh_socket, publisher,
}
use mathlib.Core.List.{reverse}

-- Local time is the number of seconds itself, and the clock stands at 9.
abbrev local : Text → Result Text
local t = ok t

abbrev clock : ℕ → Text
clock k = text "9"

abbrev hello : List ℕ
hello = 0x10 ∷ 24 ∷ 0 ∷ 4 ∷ 77 ∷ 81 ∷ 84 ∷ 84 ∷ 4 ∷ 2 ∷ 0 ∷ 0 ∷ 0 ∷ 12 ∷ text "conveyor-web"

hello_test : connect_packet (text "conveyor-web") ≡ ok hello
unfolding connect_packet enc_str encode encode_char pack_h enc_remlen
hello_test = refl

request_test : subscribe_packet (text "t") ≡ ok (0x82 ∷ 6 ∷ 0 ∷ 1 ∷ 0 ∷ 1 ∷ 116 ∷ 0 ∷ [])
unfolding subscribe_packet enc_str encode encode_char pack_h enc_remlen
request_test = refl

abbrev suback : List ℕ
suback = 0x90 ∷ 3 ∷ 0 ∷ 1 ∷ 0 ∷ []

-- A silence, a payload that is no JSON, an empty object, and an empty array.
abbrev first : List Traffic
first =
    quiet
    ∷ published (text "t") (text "x") (0x30 ∷ 4 ∷ 0 ∷ 1 ∷ 116 ∷ b'x' ∷ [])
    ∷ published (text "t") (text "{}") (0x30 ∷ 5 ∷ 0 ∷ 1 ∷ 116 ∷ b'{' ∷ b'}' ∷ [])
    ∷ []

abbrev array : Traffic
array = published (text "t") (text "[]") (0x30 ∷ 5 ∷ 0 ∷ 1 ∷ 116 ∷ b'[' ∷ b']' ∷ [])

first-AllWhole : All IsWhole first
unfolding publish_packet enc_str encode encode_char pack_h enc_remlen
first-AllWhole = (
  tt,
  (
    (omega arith, omega arith, refl, omega arith),
    ((omega arith, omega arith, refl, omega arith), tt),
  ),
)

abbrev socket : Net
socket = record {
  incoming =
      chunk 0x20 (2 ∷ 0 ∷ 0 ∷ suback)
      ∷ silence
      ∷ chunk 0x30 (4 ∷ 0 ∷ 1 ∷ 116 ∷ b'x' ∷ 0x30 ∷ 5 ∷ 0 ∷ 1 ∷ 116 ∷ b'{' ∷ b'}' ∷ [])
      ∷ [];
  outcomes = [];
  sent = [];
}

listen-hears_example :
    ((listen local (text "t") clock socket).events
      ≡ field (text "_wall") (Json.str (text "9")) end ∷ [])
    × ((listen local (text "t") clock socket).ended_by ≡ eof_error)
    × ((listen local (text "t") clock socket).socket.sent
        ≡ hello ++ (0x82 ∷ 6 ∷ 0 ∷ 1 ∷ 0 ∷ 1 ∷ 116 ∷ 0 ∷ []) ++ ping_request)
unfolding stream loads parse_json scan_number
listen-hears_example =
    listen-hears local (λ t. tt) clock (text "t") hello _ suback 2 0 first socket hello_test
      request_test refl refl first-AllWhole refl

listen-ends_example : (listen local (text "t") clock socket).ended_by ≢ stuck
listen-ends_example = listen-ends local (λ t. tt) (text "t") clock socket

mqtt_reader-does_example :
    mqtt_reader local
      (text "t")
      (calls ((turned_away, clock) ∷ (accepted 2 0 suback first socket, clock) ∷ []))
    ≡ mqtt_error os_error
      ∷ acts (stored (field (text "_wall") (Json.str (text "9")) end))
      ∷ acts (broadcasted (field (text "_wall") (Json.str (text "9")) end))
      ∷ mqtt_error eof_error
      ∷ []
unfolding stream loads parse_json scan_number
mqtt_reader-does_example =
    mqtt_reader-does local (λ t. tt) (text "t") hello _ hello_test request_test
      ((turned_away, clock) ∷ (accepted 2 0 suback first socket, clock) ∷ [])
      (tt, ((refl, refl, first-AllWhole, refl), tt))

-- The array in front of an object.
abbrev later : List Traffic
later = published (text "t") (text "{}") (0x30 ∷ 5 ∷ 0 ∷ 1 ∷ 116 ∷ b'{' ∷ b'}' ∷ []) ∷ []

abbrev array_socket : Net
array_socket = record {
  incoming =
      chunk 0x20 (2 ∷ 0 ∷ 0 ∷ suback)
      ∷ chunk 0x30 (5 ∷ 0 ∷ 1 ∷ 116 ∷ b'[' ∷ b']' ∷ 0x30 ∷ 5 ∷ 0 ∷ 1 ∷ 116 ∷ b'{' ∷ b'}' ∷ [])
      ∷ [];
  outcomes = [];
  sent = [];
}

array-AllWhole : All IsWhole (array ∷ later)
unfolding publish_packet enc_str encode encode_char pack_h enc_remlen
array-AllWhole = (
  (omega arith, omega arith, refl, omega arith),
  ((omega arith, omega arith, refl, omega arith), tt),
)

listen-no_object_example :
    ((listen local (text "t") clock array_socket).events ≡ [])
    × ((listen local (text "t") clock array_socket).ended_by ≡ attribute_error)
unfolding stream dumps_json IsValid
listen-no_object_example =
    listen-no_object local clock (text "t") hello _ suback 2 0 [] later (text "t") (arr nil)
      (0x30 ∷ 5 ∷ 0 ∷ 1 ∷ 116 ∷ b'[' ∷ b']' ∷ []) array_socket (λ s. tt) hello_test request_test
      refl refl array-AllWhole refl tt tt (λ fs e. cc)

-- All that the daemon's socket has sent, behind CONNACK and SUBACK.
abbrev broker : Net
broker = record {
  incoming =
      chunk 0x20 (2 ∷ 0 ∷ 0 ∷ suback)
      ∷ put_back
          (sent_since fresh_socket
            (read_lines (text "t") (text "n1") (readings alarms) (publisher fresh_socket)).2.sock)
          [];
  outcomes = [];
  sent = [];
}

broker_test :
    stream broker.incoming
    ≡ bytes (0x20 ∷ 2 ∷ 0 ∷ 0 ∷ suback) (
        bytes
          (sent_since fresh_socket
            (read_lines (text "t") (text "n1") (readings alarms) (publisher fresh_socket)).2.sock)
          [])
unfolding stream
broker_test = ap (bytes (0x20 ∷ 2 ∷ 0 ∷ 0 ∷ suback)) (stream-put_back _ [])

read_lines-listen_example :
    ((listen local (text "t") clock broker).events ≡ kept_all (λ t. t) (text "n1") alarms)
    × ((listen local (text "t") clock broker).ended_by ≡ eof_error)
    × (do_get json
          (text "<html>")
          (text "/api/state")
          (run json (handle_events (listen local (text "t") clock broker).events) opened).0
        ≡ whole (
            sized (text "application/json") (
              state_json json
                (newest (reverse (kept_all (λ t. t) (text "n1") alarms)))
                (take max_history (reverse (kept_all (λ t. t) (text "n1") alarms))))))
read_lines-listen_example =
    read_lines-listen (λ t. t) clock (text "t") (text "n1") (116 ∷ []) (omega arith, tt) topic-Fits
      alarms fresh_socket broker (publisher fresh_socket) (text "t") (text "<html>") hello _ suback
      2 0 alarms-IsUsual alarms-AllReal (omega arith) refl refl hello_test request_test refl refl
      broker_test
