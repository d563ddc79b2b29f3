-- ===== src/Subscriber/Display/Examples.antt =====
-- The terminal on one event of the driver, and on a message that is no event.
use embeded_convey_belt.Prelude.{ℕ, ◌≡◌, refl, none, some, List, [], ◌∷◌, ap, arith}
use embeded_convey_belt.Py.{ok, eof_error, os_error, attribute_error, unicode_error, Text, text}
use embeded_convey_belt.Py.Int.{digit_char, digit_value, show_nat, show_int}
use embeded_convey_belt.Py.Utf8.{encode, encode_char}
use embeded_convey_belt.Py.Struct.{pack_h}
use embeded_convey_belt.Py.Json.{arr, nil, dumps_json}
use embeded_convey_belt.Py.Json.Loads.{loads, parse_json}
use embeded_convey_belt.Py.Json.Scan.{scan_number, scan_string, hex_four, hex_digit}
use embeded_convey_belt.Py.Json.Printed.{IsValid}
use embeded_convey_belt.Net.{Net, connected, chunk, put_back}
use embeded_convey_belt.Net.Stream.{bytes, stream, stream-put_back}
use embeded_convey_belt.Wire.Encode.{enc_str, enc_remlen}
use embeded_convey_belt.Wire.Packets.{connect_packet, subscribe_packet}
use embeded_convey_belt.Driver.{conveyor_name, tilt_name, blockage_name}
use embeded_convey_belt.Daemon.{read_lines}
use embeded_convey_belt.Daemon.EndToEnd.{readings, sent_since}
use embeded_convey_belt.Daemon.Sample.{
  alarm, alarms, topic-Fits, alarms-IsUsual, alarms-AllReal, fresh_socket, publisher,
}
use embeded_convey_belt.Subscriber.{message, broker_error}
use embeded_convey_belt.Subscriber.Display.{out, broker, state_icon, event_line, display, main}
use embeded_convey_belt.Subscriber.Display.Columns.{driver_line}
use embeded_convey_belt.Subscriber.Display.Shown.{main-driver_lines}
use embeded_convey_belt.Subscriber.Display.Stopped.{display-no_object}

abbrev clock : ℕ → Text
clock k = text "9"

abbrev same : Text → Text
same t = t

abbrev noon : Text → Text
noon t = text "12:00:00"

abbrev hello : List ℕ
hello = 0x10 ∷ 24 ∷ 0 ∷ 4 ∷ 77 ∷ 81 ∷ 84 ∷ 84 ∷ 4 ∷ 2 ∷ 0 ∷ 0 ∷ 0 ∷ 12 ∷ text "conveyor-sub"

hello_test : connect_packet (text "conveyor-sub") ≡ ok hello
unfolding connect_packet enc_str encode encode_char pack_h enc_remlen
hello_test = refl

request_test : subscribe_packet (text "t") ≡ ok (0x82 ∷ 6 ∷ 0 ∷ 1 ∷ 0 ∷ 1 ∷ 116 ∷ 0 ∷ [])
unfolding subscribe_packet enc_str encode encode_char pack_h enc_remlen
request_test = refl

abbrev socket : Net
socket = record {
  incoming =
      chunk 0x20 (2 ∷ 0 ∷ 0 ∷ 0x90 ∷ 3 ∷ 0 ∷ 1 ∷ 0 ∷ [])
      ∷ put_back
          (sent_since fresh_socket
            (read_lines (text "t") (text "n1") (readings alarms) (publisher fresh_socket)).2.sock)
          [];
  outcomes = [];
  sent = [];
}

socket_test :
    stream socket.incoming
    ≡ bytes (0x20 ∷ 2 ∷ 0 ∷ 0 ∷ 0x90 ∷ 3 ∷ 0 ∷ 1 ∷ 0 ∷ []) (
        bytes
          (sent_since fresh_socket
            (read_lines (text "t") (text "n1") (readings alarms) (publisher fresh_socket)).2.sock)
          [])
unfolding stream
socket_test = ap (bytes (0x20 ∷ 2 ∷ 0 ∷ 0 ∷ 0x90 ∷ 3 ∷ 0 ∷ 1 ∷ 0 ∷ [])) (stream-put_back _ [])

line_test :
    driver_line (text "12:00:00") (text "n1") alarm
    ≡ text
        "[12:00:00] [CRIT] n1           state=CRITICAL_FAULT     tilt=TILTED  blockage=BLOCKED  dist=  -1cm light=  512  reason=0x1f"
unfolding conveyor_name tilt_name blockage_name show_int show_nat digit_char
line_test = refl

main-driver_lines_example :
    main (λ t. ok (noon t)) same clock (text "t") (connected socket ∷ [])
    ≡ (out (driver_line (text "12:00:00") (text "n1") alarm) ∷ broker eof_error ∷ [], none)
main-driver_lines_example =
    main-driver_lines noon same (text "t") (text "n1") (116 ∷ []) (omega arith, tt) topic-Fits clock
      alarms fresh_socket socket (publisher fresh_socket) (text "t") hello _
      (0x90 ∷ 3 ∷ 0 ∷ 1 ∷ 0 ∷ []) 2 0 alarms-IsUsual alarms-AllReal (omega arith) (λ t. omega arith)
      refl refl hello_test request_test refl refl socket_test

-- A lone surrogate ends the program.
surrogate_test :
    display
      (λ t. ok (same t))
      same
      clock
      0
      (message (text "t") (text "{\"node_id\": \"\\ud800\"}") ∷ broker_error os_error ∷ [])
    ≡ ([], some unicode_error)
unfolding display loads parse_json event_line encode encode_char scan_string hex_four hex_digit
    digit_value show_int digit_char state_icon
surrogate_test = refl

display-no_object_example :
    display
      (λ t. ok (same t))
      same
      clock
      0
      (message (text "t") (text "x") ∷ message (text "t") (text "[]") ∷ broker_error os_error ∷ [])
    ≡ (out (text "x") ∷ [], some attribute_error)
unfolding display encode encode_char dumps_json IsValid loads parse_json scan_number
display-no_object_example =
    display-no_object (λ t. ok (same t)) same clock 0 (message (text "t") (text "x") ∷ [])
      (broker_error os_error ∷ []) (text "t") (arr nil) tt (λ fs e. cc) refl
