-- ===== src/Daemon/Lines.antt =====
-- One line of the device, on a socket that accepts all and on one that is broken.
use embeded_convey_belt.Prelude.{
  ℕ, ◌^◌, ◌<◌, ◌≡◌, some, Option, List, [], ◌∷◌, ◌++◌, append-nil, All, arith, length,
  length-append,
}
use embeded_convey_belt.Py.{ok, os_error, Text}
use embeded_convey_belt.Net.{Net}
use embeded_convey_belt.Net.Send.{sendall-accepting, broken_sendall}
use embeded_convey_belt.Wire.Groups.{enc_remlen_shape}
use embeded_convey_belt.Wire.Names.{Fits, counted, enc_str-Fits}
use embeded_convey_belt.Wire.Packets.{publish_packet}
use embeded_convey_belt.Event.{Event, parse_event}
use embeded_convey_belt.Event.Json.Ascii.{IsPrintable, encode-IsPrintable}
use embeded_convey_belt.Publisher.{MqttPublisher, publish}
use embeded_convey_belt.Daemon.{payload, line_error, handle_line, payload_of}

-- A topic whose encoding is known, and a payload of printable ASCII, make a packet; with a payload
-- below 2 ^ 27 characters it is one that the receiver's length field can hold.
pub publish_packet-returns :
    (t p : Text) (name : List ℕ)
    → Fits t name
    → All IsPrintable p
    → length p < 2 ^ 27
    → (pkt : List ℕ) × (publish_packet t p ≡ ok pkt) × (length pkt < 128 ^ 4)
unfolding publish_packet
publish_packet-returns t p name h clean small =
    let body : List ℕ = counted name ++ p in
    let (size, e, are_bytes, least, most) =
      enc_remlen_shape 3 (length body) (omega (arith, length-append {0} name p, h.short)) in
    (
      0x30 ∷ (size ++ body),
      rw (enc_str-Fits t name h, encode-IsPrintable p clean, e),
      omega (arith, length-append {0} size body, length-append {0} name p, h.short),
    )

module _ (topic node_id now line : Text) where
  -- A line that parses, on a socket that accepts all: the whole packet goes out, and the payload is
  -- printed.
  pub handle_line-accepting :
      (ev : Event) (pkt : List ℕ) (net : Net) (self : MqttPublisher)
      → parse_event now line ≡ ok ev
      → publish_packet topic (payload_of node_id ev) ≡ ok pkt
      → self.sock ≡ some net
      → net.outcomes ≡ []
      → handle_line topic node_id now line self ≡ (
        payload (payload_of node_id ev),
        record self { sock = some (record net { sent = net.sent ++ pkt }) },
      )
  unfolding handle_line publish
  handle_line-accepting ev pkt net self parsed packed there accepting =
      rw (parsed, packed, there, sendall-accepting pkt net accepting)

  -- On a socket that is broken the line is lost: an error is printed, and no byte goes out.
  pub handle_line-broken :
      (ev : Event) (pkt : List ℕ) (net : Net) (later : List (Option ℕ)) (self : MqttPublisher)
      → parse_event now line ≡ ok ev
      → publish_packet topic (payload_of node_id ev) ≡ ok pkt
      → self.sock ≡ some net
      → net.outcomes ≡ some 0 ∷ later
      → handle_line topic node_id now line self
        ≡ (line_error os_error, record self { sock = some (record net { outcomes = later }) })
  unfolding handle_line publish
  handle_line-broken ev pkt net later self parsed packed there broken =
      rw (parsed, packed, there, broken_sendall pkt net later broken, append-nil)
