-- ===== src/Wire/Packets.antt =====
-- The MQTT 3.1.1 packets that the programs write: CONNECT and SUBSCRIBE as in
-- broker/conveyor_subscriber.py, PUBLISH as in conveyor_event_daemon.py.
use embeded_convey_belt.Prelude.{ℕ, List, [], ◌∷◌, ◌++◌, length}
use embeded_convey_belt.Py.{Result, ok, Text, ◌>>=◌}
use embeded_convey_belt.Py.Utf8.{encode}
use embeded_convey_belt.Py.Struct.{pack_h}
use embeded_convey_belt.Wire.Encode.{enc_str, enc_remlen}

-- 'MQTT'
abbrev pub protocol_name : Text
protocol_name = 77 ∷ 81 ∷ 84 ∷ 84 ∷ []

abbrev pub ping_request : List ℕ
ping_request = 0xc0 ∷ 0x00 ∷ []

abbrev pub disconnect_request : List ℕ
disconnect_request = 0xe0 ∷ 0x00 ∷ []

-- bytes([kind]) + _enc_remlen(len(body)) + body
unfoldable pub packet : ℕ → List ℕ → Result (List ℕ)
packet kind body = do size ← enc_remlen (length body); ok (kind ∷ size ++ body)

unfoldable pub connect_packet : Text → Result (List ℕ)
unfolding packet
connect_packet client_id = do
  cid ← enc_str client_id
  name ← enc_str protocol_name
  packet 0x10 ((name ++ 4 ∷ 2 ∷ 0 ∷ 0 ∷ []) ++ cid)

unfoldable pub subscribe_packet : Text → Result (List ℕ)
unfolding packet
subscribe_packet topic = do
  pkt_id ← pack_h 1
  name ← enc_str topic
  packet 0x82 (pkt_id ++ name ++ 0 ∷ [])

unfoldable pub publish_packet : Text → Text → Result (List ℕ)
unfolding packet
publish_packet topic payload = do
  name ← enc_str topic
  content ← encode payload
  packet 0x30 (name ++ content)
