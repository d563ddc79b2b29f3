-- ===== src/Subscriber.antt =====
-- `mqtt_messages` of broker/conveyor_subscriber.py: the handshake, one round of the reading loop,
-- the loop over one connection, and the loop that reconnects.
pub mod Rounds
pub mod Delivery
pub mod Interrupted
pub mod Progress
pub mod Connections
pub mod Reconnect
pub mod Display
mod Examples
use embeded_convey_belt.Prelude.{
  ℕ, zero, suc, ◌+◌, Option, none, some, List, [], ◌∷◌, ◌++◌, bit_and, take, drop, length, ◌==◌,
  not, ◌||◌, if◌then◌else◌,
}
use embeded_convey_belt.Py.{
  Exc, Result, ok, err, runtime_error, timeout, os_error, stuck, Text, index,
}
use embeded_convey_belt.Py.Utf8.{decode}
use embeded_convey_belt.Py.Struct.{unpack_h}
use embeded_convey_belt.Net.Stream.{stream}
use embeded_convey_belt.Net.{
  Net, Attempt, refused, connected, Io, pure, raise, lift, ◌>>=◌, ◌>>◌, sendall,
}
use embeded_convey_belt.Wire.Receive.{recvn, check_connack, read_frame}
use embeded_convey_belt.Wire.Packets.{connect_packet, subscribe_packet, ping_request}

-- A topic and a payload.
abbrev pub Message : Type 0
Message = Text × Text

unfoldable pub handshake : Text → Text → Io (Unit {0})
handshake client_id topic = do
  hello ← lift (connect_packet client_id)
  sendall hello
  ack ← recvn 4
  check_connack ack
  request ← lift (subscribe_packet topic)
  sendall request
  _ ← recvn 5
  pure tt

-- data[:2], data[2:2 + tlen] and data[2 + tlen:] of a PUBLISH packet
unfoldable pub parse_publish : List ℕ → Io Message
parse_publish body = do
  tlen ← lift (unpack_h (take 2 body))
  t ← lift (decode (take tlen (drop 2 body)))
  p ← lift (decode (drop (2 + tlen) body))
  pure (t, p)

-- The body of the `try`: one packet, and the message if it is a PUBLISH.
unfoldable pub read_packet : Io (Option Message)
read_packet = do
  (pkt_type, body) ← read_frame
  if pkt_type == 0x30 then (do m ← parse_publish body; pure (some m)) else pure none

-- What one connection yields, and the exception that ends it.
pub record Session : Type 0 where
  pub yielded : List Message
  pub ended_by : Exc
  pub socket : Net

abbrev pub yield : Option Message → Session → Session
yield none s = s
yield (some m) s = record s { yielded = m ∷ s.yielded }

-- What follows one round: `socket.timeout` is answered by a PINGREQ, any other exception leaves the
-- loop, and so does one that the PINGREQ raises.
abbrev pub after_ping : (Net → Session) → Result (Unit {0}) × Net → Session
after_ping next (ok _, net) = next net
after_ping next (err e, net) = record { yielded = []; ended_by = e; socket = net }

abbrev pub after_round : (Net → Session) → Result (Option Message) × Net → Session
after_round next (ok m, net) = yield m (next net)
after_round next (err timeout, net) = after_ping next (sendall ping_request net)
after_round next (err e, net) = record { yielded = []; ended_by = e; socket = net }

-- `while True`. Each round that goes on has taken something from the socket.
unfoldable pub read_loop : ℕ → Net → Session
read_loop zero net = record { yielded = []; ended_by = stuck; socket = net }
read_loop (suc fuel) net = after_round (λ net'. read_loop fuel net') (read_packet net)

abbrev pub after_handshake : Result (Unit {0}) × Net → Session
after_handshake (ok _, net) = read_loop (suc (length (stream net.incoming))) net
after_handshake (err e, net) = record { yielded = []; ended_by = e; socket = net }

-- One connection, from CONNECT to the exception that ends it. A round that goes on has taken one
-- byte or one silence at least, so the fuel is one more than there are.
unfoldable pub connection : Text → Text → Net → Session
connection client_id topic net = after_handshake (handshake client_id topic net)

-- What `mqtt_messages` does outside: it yields a message, or prints a broker error and sleeps.
pub data Output : Type 0 where
  message : Text → Text → Output
  broker_error : Exc → Output

abbrev pub outputs : List Message → List Output
outputs [] = []
outputs ((t, p) ∷ ms) = message t p ∷ outputs ms

-- `mqtt_messages`, over the outcomes of its calls of `create_connection`.
unfoldable pub mqtt_messages : Text → Text → List Attempt → List Output
mqtt_messages client_id topic [] = []
mqtt_messages client_id topic (refused ∷ attempts) =
    broker_error os_error ∷ mqtt_messages client_id topic attempts
mqtt_messages client_id topic (connected net ∷ attempts) =
    let session = connection client_id topic net in
    (outputs session.yielded ++ broker_error session.ended_by ∷ [])
    ++ mqtt_messages client_id topic attempts
