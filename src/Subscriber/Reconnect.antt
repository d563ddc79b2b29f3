-- ===== src/Subscriber/Reconnect.antt =====
-- `mqtt_messages` over several connections.
use embeded_convey_belt.Prelude.{ℕ, ◌≡◌, refl, ap, List, [], ◌∷◌, ◌++◌, All, length}
use embeded_convey_belt.Py.{ok, eof_error, os_error, Text}
use embeded_convey_belt.Net.{Net, Attempt, refused, connected}
use embeded_convey_belt.Net.Stream.{bytes, stream}
use embeded_convey_belt.Wire.Packets.{connect_packet, subscribe_packet}
use embeded_convey_belt.Subscriber.{Output, broker_error, outputs, mqtt_messages}
use embeded_convey_belt.Subscriber.Delivery.{Traffic, IsWhole, wire, messages}
use embeded_convey_belt.Subscriber.Connections.{connection-delivers}

-- One call of `create_connection`: it is refused, or connects a socket on which CONNACK and SUBACK arrive
-- and then this traffic.
pub data Visit : Type 0 where
  turned_away : Visit
  accepted : (x y : ℕ) (suback : List ℕ) (ts : List Traffic) (net : Net) → Visit

abbrev pub IsCalm : Visit → Type 0
IsCalm turned_away = Unit
IsCalm (accepted x y suback ts net) =
    (length suback ≡ 5)
    × (net.outcomes ≡ [])
    × All IsWhole ts
    × (stream net.incoming ≡ bytes (0x20 ∷ x ∷ y ∷ 0 ∷ suback) (wire ts []))

abbrev pub attempts : List Visit → List Attempt
attempts [] = []
attempts (turned_away ∷ vs) = refused ∷ attempts vs
attempts (accepted x y suback ts net ∷ vs) = connected net ∷ attempts vs

-- A refusal is reported as OSError, and the end of a connection as EOFError.
abbrev pub expected : List Visit → List Output
expected [] = []
expected (turned_away ∷ vs) = broker_error os_error ∷ expected vs
expected (accepted x y suback ts net ∷ vs) =
    (outputs (messages ts) ++ broker_error eof_error ∷ []) ++ expected vs

module _ (client_id topic : Text) (hello request : List ℕ)
    (eh : connect_packet client_id ≡ ok hello) (er : subscribe_packet topic ≡ ok request) where
  -- Over any sequence of connection attempts, some refused and some accepted by a broker that sends whole
  -- packets (PUBLISH with no flags and text that has an encoding, and PINGRESP), with silences between them, up to the end of the connection, on sockets that accept all that
  -- is written: the generator goes on after every end and every refusal, and yields the published messages
  -- of all connections, in order, with one error message behind each connection and for each refusal.
  pub mqtt_messages-delivers :
      (vs : List Visit) → All IsCalm vs → mqtt_messages client_id topic (attempts vs) ≡ expected vs
  unfolding mqtt_messages
  mqtt_messages-delivers [] h = refl
  mqtt_messages-delivers (turned_away ∷ vs) h =
      ap (λ l. broker_error os_error ∷ l) (mqtt_messages-delivers vs h.1)
  mqtt_messages-delivers (accepted x y suback ts net ∷ vs) ((size, accepting, whole, arrives), h) =
      let (yields, ended, sent) =
        connection-delivers client_id topic hello request suback x y ts net eh er size accepting
          whole arrives in
      rw (yields, ended, mqtt_messages-delivers vs h) refl
