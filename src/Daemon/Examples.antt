-- ===== src/Daemon/Examples.antt =====
-- The daemon and the subscriber on one event of the driver.
use embeded_convey_belt.Prelude.{ℕ, All, ◌++◌, ◌≡◌, refl, none, some, List, [], ◌∷◌, map, ap, arith}
use embeded_convey_belt.Py.{ok, eof_error, os_error, text}
use embeded_convey_belt.Py.Int.{digit_char, show_nat, show_int}
use embeded_convey_belt.Py.Utf8.{encode, encode_char}
use embeded_convey_belt.Py.Struct.{pack_h}
use embeded_convey_belt.Net.{Net, connected, chunk, put_back}
use embeded_convey_belt.Net.Stream.{bytes, stream, stream-put_back}
use embeded_convey_belt.Wire.Encode.{enc_str, enc_remlen}
use embeded_convey_belt.Wire.Packets.{disconnect_request, connect_packet, subscribe_packet}
use embeded_convey_belt.Event.{assign}
use embeded_convey_belt.Driver.{conveyor_name, tilt_name, blockage_name}
use embeded_convey_belt.Daemon.{opened, round, payload, line_error, read_lines}
use embeded_convey_belt.Py.Utf8.{IsScalar}
use embeded_convey_belt.Py.Json.{obj}
use embeded_convey_belt.Py.Json.Loads.{loads}
use embeded_convey_belt.Event.{str}
use embeded_convey_belt.Event.Loads.{of_event}
use embeded_convey_belt.Driver.{format_event}
use embeded_convey_belt.Driver.Line.{parsed, parse_event-format_event}
use embeded_convey_belt.Daemon.{payload_of}
use embeded_convey_belt.Daemon.Loads.{loads-payload_of}
use embeded_convey_belt.Daemon.Sample.{
  alarm, twelve_half-IsReal, alarms, topic-Fits, alarms-IsUsual, fresh_socket, publisher,
}
use embeded_convey_belt.Daemon.EndToEnd.{readings, payloads, sent_since, read_lines-connection}
use embeded_convey_belt.Daemon.Round.{round-publishes}
use embeded_convey_belt.Daemon.Broken.{failures, read_lines-broken}
use embeded_convey_belt.Subscriber.{connection}
use embeded_convey_belt.Subscriber.Delivery.{Traffic, IsWhole, wire, messages}

-- All that the daemon's socket has sent, behind CONNACK and SUBACK.
abbrev broker : Net
broker = record {
  incoming =
      chunk 0x20 (2 ∷ 0 ∷ 0 ∷ 0x90 ∷ 3 ∷ 0 ∷ 1 ∷ 0 ∷ [])
      ∷ put_back
          (sent_since fresh_socket
            (read_lines (text "t") (text "n1") (readings alarms) (publisher fresh_socket)).2.sock)
          [];
  outcomes = [];
  sent = [];
}

abbrev hello : List ℕ
hello = 0x10 ∷ 13 ∷ 0 ∷ 4 ∷ 77 ∷ 81 ∷ 84 ∷ 84 ∷ 4 ∷ 2 ∷ 0 ∷ 0 ∷ 0 ∷ 1 ∷ 99 ∷ []

hello_test : connect_packet (text "c") ≡ ok hello
unfolding connect_packet enc_str encode encode_char pack_h enc_remlen
hello_test = refl

request_test : subscribe_packet (text "t") ≡ ok (0x82 ∷ 6 ∷ 0 ∷ 1 ∷ 0 ∷ 1 ∷ 116 ∷ 0 ∷ [])
unfolding subscribe_packet enc_str encode encode_char pack_h enc_remlen
request_test = refl

broker_test :
    stream broker.incoming
    ≡ bytes (0x20 ∷ 2 ∷ 0 ∷ 0 ∷ 0x90 ∷ 3 ∷ 0 ∷ 1 ∷ 0 ∷ []) (
        bytes
          (sent_since fresh_socket
            (read_lines (text "t") (text "n1") (readings alarms) (publisher fresh_socket)).2.sock)
          [])
unfolding stream
broker_test = ap (bytes (0x20 ∷ 2 ∷ 0 ∷ 0 ∷ 0x90 ∷ 3 ∷ 0 ∷ 1 ∷ 0 ∷ [])) (stream-put_back _ [])

read_lines-connection_example :
    ((connection (text "c") (text "t") broker).yielded
      ≡ map (λ p. (text "t", p)) (payloads (text "n1") alarms))
    × ((connection (text "c") (text "t") broker).ended_by ≡ eof_error)
    × ((read_lines (text "t") (text "n1") (readings alarms) (publisher fresh_socket)).0
        ≡ map payload (payloads (text "n1") alarms))
read_lines-connection_example =
    read_lines-connection (text "t") (text "n1") (116 ∷ []) (omega arith, tt) topic-Fits alarms
      fresh_socket broker (publisher fresh_socket) (text "c") (text "t") _ _
      (0x90 ∷ 3 ∷ 0 ∷ 1 ∷ 0 ∷ []) 2 0 alarms-IsUsual refl refl hello_test request_test refl refl
      broker_test

abbrev broken_socket : Net
broken_socket = record { incoming = []; outcomes = failures alarms; sent = [] }

read_lines-broken_example :
    read_lines (text "t") (text "n1") (readings alarms) (publisher broken_socket)
    ≡ (line_error os_error ∷ [], none, publisher fresh_socket)
read_lines-broken_example =
    read_lines-broken (text "t") (text "n1") (116 ∷ []) topic-Fits alarms broken_socket
      (publisher broken_socket) alarms-IsUsual refl refl

-- The broker accepts the daemon.
abbrev accepting : Net
accepting = record { incoming = chunk 0x20 (2 ∷ 0 ∷ 0 ∷ []) ∷ []; outcomes = []; sent = [] }

round-publishes_example :
    (net' : Net) × (traffic : List Traffic) × (out : List ℕ) × (round
        (text "t")
        (text "n1")
        (text "c")
        (connected accepting)
        (opened (readings alarms))
      ≡ (map payload (payloads (text "n1") alarms), some net'))
    × (net'.sent ≡ hello ++ out ++ disconnect_request)
    × All IsWhole traffic
    × (wire traffic [] ≡ bytes out [])
    × (messages traffic ≡ map (λ p. (text "t", p)) (payloads (text "n1") alarms))
unfolding stream
round-publishes_example =
    round-publishes (text "t") (text "n1") (116 ∷ []) (omega arith, tt) topic-Fits (text "c") hello
      2 0 [] accepting alarms hello_test refl refl alarms-IsUsual

line-IsScalar : All IsScalar (format_event alarm)
unfolding format_event digit_char show_int show_nat conveyor_name tilt_name blockage_name
line-IsScalar = omega arith

loads-payload_of_example :
    loads (payload_of (text "n1") (parsed (text "12.5") alarm))
    ≡ ok (obj (of_event (assign (text "node_id") (str (text "n1")) (parsed (text "12.5") alarm))))
loads-payload_of_example =
    loads-payload_of (text "12.5") (format_event alarm) (text "n1") (parsed (text "12.5") alarm)
      line-IsScalar (omega arith) twelve_half-IsReal (parse_event-format_event (text "12.5") alarm)
