-- ===== src/Publisher.antt =====
-- `MqttPublisher` of conveyor_event_daemon.py.
use embeded_convey_belt.Prelude.{Option, none, some, List, ℕ}
use embeded_convey_belt.Py.{Result, ok, err, runtime_error, os_error, Text}
use embeded_convey_belt.Net.{Net, Attempt, refused, connected, Io, ◌>>=◌, ◌>>◌, sendall}
use embeded_convey_belt.Wire.Receive.{recvn, check_connack}
use embeded_convey_belt.Wire.Packets.{connect_packet, publish_packet, disconnect_request}

-- `host` and `port` only go into `create_connection`, whose outcome is an argument of `connect`.
pub record MqttPublisher : Type 0 where
  pub client_id : Text
  pub sock : Option Net

-- A method returns or raises, and leaves the object as it was at that point.
abbrev pub Method : Type 0
Method = MqttPublisher → Result (Unit {0}) × MqttPublisher

-- The constructor with its default client id.
abbrev pub fresh : Text → MqttPublisher
fresh client_id = record { client_id = client_id; sock = none }

greet : List ℕ → Io (Unit {0})
greet pkt = do sendall pkt; ack ← recvn 4; check_connack ack

-- An action on the socket that `self._sock` holds.
abbrev on_sock : Io (Unit {0}) → Net → Method
on_sock action net self = let (r, net') = action net in (r, record self { sock = some net' })

abbrev connect_to : Attempt → Result (List ℕ) → Method
connect_to attempt (err e) self = (err e, self)
connect_to refused (ok pkt) self = (err os_error, self)
connect_to (connected net) (ok pkt) self = on_sock (greet pkt) net self

unfoldable pub connect : Attempt → Method
unfolding greet
connect attempt self = connect_to attempt (connect_packet self.client_id) self

abbrev publish_on : Option Net → Result (List ℕ) → Method
publish_on none pkt self = (err runtime_error, self)
publish_on (some net) (err e) self = (err e, self)
publish_on (some net) (ok pkt) self = on_sock (sendall pkt) net self

unfoldable pub publish : Text → Text → Method
publish topic payload self = publish_on self.sock (publish_packet topic payload) self

-- Whether the farewell is accepted or raises OSError, the socket is closed; `none` if there is none.
abbrev farewell : Option Net → Option Net
farewell none = none
farewell (some net) = some (sendall disconnect_request net).1

-- The socket as it was closed, and the object without it.
unfoldable pub disconnect : MqttPublisher → Option Net × MqttPublisher
disconnect self = (farewell self.sock, record self { sock = none })
