-- ===== src/Subscriber/Examples.antt =====
-- The theorems on the subscriber at concrete connections.
use embeded_convey_belt.Prelude.{ℕ, ◌≡◌, ◌≢◌, inr, refl, List, [], ◌∷◌, ◌++◌, arith}
use embeded_convey_belt.Py.{os_error, ok, eof_error, runtime_error, stuck, text}
use embeded_convey_belt.Net.{refused, connected, Net, Arrival, chunk, silence, recv, sendall}
use embeded_convey_belt.Net.Stream.{bytes, stream}
use embeded_convey_belt.Wire.Encode.{enc_remlen, enc_str}
use embeded_convey_belt.Wire.Receive.{recvn, read_remlen, read_frame}
use embeded_convey_belt.Py.Utf8.{encode, encode_char}
use embeded_convey_belt.Py.Struct.{pack_h}
use embeded_convey_belt.Wire.Packets.{
  ping_request, connect_packet, subscribe_packet, publish_packet,
}
use embeded_convey_belt.Subscriber.{read_packet, read_loop, connection}
use embeded_convey_belt.Subscriber.Delivery.{Traffic, published, quiet}
use embeded_convey_belt.Subscriber.Connections.{connection-delivers, connection-refused}
use embeded_convey_belt.Subscriber.{message, broker_error, mqtt_messages}
use embeded_convey_belt.Subscriber.Reconnect.{turned_away, accepted, mqtt_messages-delivers}
use embeded_convey_belt.Subscriber.Interrupted.{read_loop-interrupted}
use embeded_convey_belt.Subscriber.Progress.{connection-ends}

abbrev socket : List Arrival → Net
socket arrivals = record { incoming = arrivals; outcomes = []; sent = [] }

-- CONNECT of the client "c", SUBSCRIBE to "t", and PUBLISH of "hi" under "t"
abbrev hello : List ℕ
hello = 0x10 ∷ 13 ∷ 0 ∷ 4 ∷ 77 ∷ 81 ∷ 84 ∷ 84 ∷ 4 ∷ 2 ∷ 0 ∷ 0 ∷ 0 ∷ 1 ∷ 99 ∷ []

abbrev request : List ℕ
request = 0x82 ∷ 6 ∷ 0 ∷ 1 ∷ 0 ∷ 1 ∷ 116 ∷ 0 ∷ []

abbrev greeting : List ℕ
greeting = 0x30 ∷ 5 ∷ 0 ∷ 1 ∷ 116 ∷ 104 ∷ 105 ∷ []

hello_test : connect_packet (text "c") ≡ ok hello
unfolding connect_packet enc_str encode encode_char pack_h enc_remlen
hello_test = refl

request_test : subscribe_packet (text "t") ≡ ok request
unfolding subscribe_packet enc_str encode encode_char pack_h enc_remlen
request_test = refl

greeting_test : publish_packet (text "t") (text "hi") ≡ ok greeting
unfolding publish_packet enc_str encode encode_char pack_h enc_remlen
greeting_test = refl

abbrev suback : List ℕ
suback = 0x90 ∷ 3 ∷ 0 ∷ 1 ∷ 0 ∷ []

-- The broker accepts, is silent for a while, publishes in two segments, and closes.
abbrev day : Net
day = socket (
    chunk 0x20 (2 ∷ 0 ∷ 0 ∷ 0x90 ∷ 3 ∷ 0 ∷ [])
    ∷ chunk 1 (0 ∷ [])
    ∷ silence
    ∷ chunk 0x30 (5 ∷ 0 ∷ [])
    ∷ chunk 1 (116 ∷ 104 ∷ 105 ∷ [])
    ∷ [])

abbrev day_traffic : List Traffic
day_traffic = quiet ∷ published (text "t") (text "hi") greeting ∷ []

connection-delivers_example :
    ((connection (text "c") (text "t") day).yielded ≡ (text "t", text "hi") ∷ [])
    × ((connection (text "c") (text "t") day).ended_by ≡ eof_error)
    × ((connection (text "c") (text "t") day).socket.sent ≡ hello ++ request ++ ping_request)
unfolding stream
connection-delivers_example =
    connection-delivers (text "c") (text "t") hello request suback 2 0 day_traffic day hello_test
      request_test refl refl
      (tt, (((omega arith, tt), (omega arith, (omega arith, tt)), greeting_test, omega arith), tt))
      refl

-- Return code 5: not authorised
abbrev refusing : Net
refusing = socket (chunk 0x20 (2 ∷ 0 ∷ 5 ∷ []) ∷ [])

connection-refused_example :
    ((connection (text "c") (text "t") refusing).yielded ≡ [])
    × ((connection (text "c") (text "t") refusing).ended_by ≡ runtime_error)
    × ((connection (text "c") (text "t") refusing).socket.sent ≡ hello)
unfolding stream
connection-refused_example =
    connection-refused (text "c") (text "t") hello 0x20 2 0 5 [] refusing hello_test refl refl
      (inr (omega arith))

connection-ends_example : (connection (text "c") (text "t") day).ended_by ≢ stuck
connection-ends_example = connection-ends (text "c") (text "t") day

-- The silence comes behind three bytes of the packet.
abbrev late : Net
late = socket (chunk 0x30 (5 ∷ 0 ∷ []) ∷ silence ∷ chunk 1 (116 ∷ 104 ∷ 105 ∷ []) ∷ [])

read_loop-interrupted_example :
    (net' : Net) × (read_loop 4 late ≡ read_loop 3 net')
    × (stream net'.incoming ≡ bytes (1 ∷ 116 ∷ 104 ∷ 105 ∷ []) [])
    × (net'.sent ≡ ping_request)
unfolding enc_remlen stream
read_loop-interrupted_example =
    read_loop-interrupted 3 0x30 1 (5 ∷ []) (0 ∷ []) (116 ∷ 104 ∷ 105 ∷ []) [] late refl
      (omega arith) refl refl

-- The message of that packet is not yielded.
late_test : (read_loop 4 late).yielded ≡ []
unfolding read_loop read_packet read_frame recvn recv read_remlen sendall
late_test = refl

mqtt_messages-delivers_example :
    mqtt_messages (text "c") (text "t") (refused ∷ connected day ∷ [])
    ≡ broker_error os_error ∷ message (text "t") (text "hi") ∷ broker_error eof_error ∷ []
unfolding stream
mqtt_messages-delivers_example =
    mqtt_messages-delivers (text "c") (text "t") hello request hello_test request_test
      (turned_away ∷ accepted 2 0 suback day_traffic day ∷ [])
      (
        tt,
        (
          (
            refl,
            refl,
            (
              tt,
              (
                ((omega arith, tt), (omega arith, (omega arith, tt)), greeting_test, omega arith),
                tt,
              ),
            ),
            refl,
          ),
          tt,
        ),
      )
