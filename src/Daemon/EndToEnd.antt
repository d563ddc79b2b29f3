-- ===== src/Daemon/EndToEnd.antt =====
-- From the lines of the driver to the messages of the subscriber.
use embeded_convey_belt.Prelude.{
  ℕ, ◌^◌, ◌<◌, ◌≡◌, ◌∙◌, refl, sym, ap, none, some, Option, List, [], ◌∷◌, ◌++◌, map, append-nil,
  append_assoc, All, length, drop, drop-length-append,
}
use embeded_convey_belt.Py.{ok, eof_error, Text}
use embeded_convey_belt.Py.Utf8.{IsScalar}
use embeded_convey_belt.Py.Json.Numbers.{IsReal}
use embeded_convey_belt.Net.{Net}
use embeded_convey_belt.Net.Stream.{bytes, bytes-append, stream}
use embeded_convey_belt.Wire.Names.{Fits}
use embeded_convey_belt.Wire.Packets.{connect_packet, subscribe_packet}
use embeded_convey_belt.Event.{assign}
use embeded_convey_belt.Event.Json.Ascii.{IsPrintable, dumps-IsPrintable, printable-IsScalar}
use embeded_convey_belt.Driver.{ConveyorEvent, format_event}
use embeded_convey_belt.Driver.Line.{parsed, parse_event-format_event}
use embeded_convey_belt.Publisher.{MqttPublisher}
use embeded_convey_belt.Daemon.{payload, payload_of, Reading, a_line, read_lines}
use embeded_convey_belt.Daemon.Lines.{publish_packet-returns, handle_line-accepting}
use embeded_convey_belt.Subscriber.{connection}
use embeded_convey_belt.Subscriber.Delivery.{Traffic, published, IsWhole, wire, messages, pings}
use embeded_convey_belt.Subscriber.Connections.{connection-delivers}

-- An event of the driver and the time, as `time.time()` prints it, at which its line is handled.
abbrev pub Timed : Type 0
Timed = Text × ConveyorEvent

abbrev pub readings : List Timed → List Reading
readings [] = []
readings ((now, ev) ∷ evs) = a_line now (format_event ev) ∷ readings evs

abbrev pub payloads : Text → List Timed → List Text
payloads node_id [] = []
payloads node_id ((now, ev) ∷ evs) = payload_of node_id (parsed now ev) ∷ payloads node_id evs

-- The time is printable, and the payload below 2 ^ 27 characters.
abbrev pub IsUsual : Text → List Timed → Type 0
IsUsual node_id [] = Unit
IsUsual node_id ((now, ev) ∷ evs) =
    All IsPrintable now
    × (length (payload_of node_id (parsed now ev)) < 2 ^ 27)
    × IsUsual node_id evs

abbrev pub AllReal : List Timed → Type 0
AllReal [] = Unit
AllReal ((now, ev) ∷ evs) = IsReal now × AllReal evs

pub payload-IsPrintable :
    (node_id now : Text) (ev : ConveyorEvent)
    → All IsPrintable now
    → All IsPrintable (payload_of node_id (parsed now ev))
unfolding assign
payload-IsPrintable node_id now ev h =
    dumps-IsPrintable _ (tt, (tt, (tt, (tt, (tt, (tt, (tt, (tt, (h, (tt, tt))))))))))

-- What the loop over the lines has written: packets that a reader takes for these messages.
pub record Written (topic node_id : Text) (evs : List Timed) (net : Net) (self : MqttPublisher)
    : Type 0 where
  pub traffic : List Traffic
  pub out : List ℕ
  pub whole : All IsWhole traffic
  pub as_messages : messages traffic ≡ map (λ p. (topic, p)) (payloads node_id evs)
  pub no_pings : pings traffic ≡ []
  pub on_wire : wire traffic [] ≡ bytes out []
  pub run : read_lines topic node_id (readings evs) self ≡ (
    map payload (payloads node_id evs),
    none,
    record self { sock = some (record net { sent = net.sent ++ out }) },
  )

-- The bytes that a publisher's socket has sent beyond those of `net`.
abbrev pub sent_since : Net → Option Net → List ℕ
sent_since net none = []
sent_since net (some later) = drop (length net.sent) later.sent

module _ (topic node_id : Text) (name : List ℕ) (scalar : All IsScalar topic)
    (fits : Fits topic name) where
  pub read_lines-Written :
      (evs : List Timed) (net : Net) (self : MqttPublisher)
      → IsUsual node_id evs
      → self.sock ≡ some net
      → net.outcomes ≡ []
      → Written topic node_id evs net self
  unfolding read_lines
  read_lines-Written [] net self h there accepting = record {
    traffic = [];
    out = [];
    whole = tt;
    as_messages = refl;
    no_pings = refl;
    on_wire = refl;
    run = rw append-nil (ap (λ o. ([], none, record self { sock = o })) there);
  }
  read_lines-Written ((now, ev) ∷ evs) net self (clean, small, h) there accepting =
      let content = payload_of node_id (parsed now ev) in
      let printable = payload-IsPrintable node_id now ev clean in
      let (pkt, packed, short) = publish_packet-returns topic content name fits printable small in
      let net' : Net = record net { sent = net.sent ++ pkt } in
      let self' : MqttPublisher = record self { sock = some net' } in
      let rest = read_lines-Written evs net' self' h refl accepting in
      record {
        traffic = published topic content pkt ∷ rest.traffic;
        out = pkt ++ rest.out;
        whole = ((scalar, printable-IsScalar content printable, packed, short), rest.whole);
        as_messages = ap (λ l. (topic, content) ∷ l) rest.as_messages;
        no_pings = rest.no_pings;
        on_wire = ap (bytes pkt) rest.on_wire ∙ sym (bytes-append pkt rest.out []);
        run =
            rw
              (handle_line-accepting topic node_id now (format_event ev) (parsed now ev) pkt net
                self (parse_event-format_event now ev) packed there accepting)
              (rw (rest.run, append_assoc net.sent pkt rest.out) refl);
      }

  -- The daemon and the subscriber together. The daemon, on a socket that accepts all, handles the lines
  -- that the driver makes of `evs`; what the socket has then sent reaches a subscriber whose broker
  -- accepts it, behind CONNACK and SUBACK and cut into segments anyhow. Then the subscriber yields
  -- exactly the payloads of `evs`, in order and under the daemon's topic, and ends with EOFError; the
  -- daemon has printed the same payloads. The times are printable, each payload is below 2 ^ 27
  -- characters, and the topic has an encoding that fits its length field.
  pub read_lines-connection :
      (evs : List Timed) (net broker : Net) (self : MqttPublisher) (client_id filter : Text)
      (hello request suback : List ℕ) (x y : ℕ)
      → IsUsual node_id evs
      → self.sock ≡ some net
      → net.outcomes ≡ []
      → connect_packet client_id ≡ ok hello
      → subscribe_packet filter ≡ ok request
      → length suback ≡ 5
      → broker.outcomes ≡ []
      → stream broker.incoming
        ≡ bytes
            (0x20 ∷ x ∷ y ∷ 0 ∷ suback)
            (bytes (sent_since net (read_lines topic node_id (readings evs) self).2.sock) [])
      → ((connection client_id filter broker).yielded
          ≡ map (λ p. (topic, p)) (payloads node_id evs))
        × ((connection client_id filter broker).ended_by ≡ eof_error)
        × ((read_lines topic node_id (readings evs) self).0 ≡ map payload (payloads node_id evs))
  read_lines-connection evs net broker self client_id filter hello request suback x y usual there
        accepting eh er size open_still arrives =
      let w = read_lines-Written evs net self usual there accepting in
      let same : sent_since net (read_lines topic node_id (readings evs) self).2.sock ≡ w.out =
        rw w.run (drop-length-append net.sent w.out) in
      let arrives' : stream broker.incoming
          ≡ bytes (0x20 ∷ x ∷ y ∷ 0 ∷ suback) (wire w.traffic []) =
        rw (w.on_wire, ← same) arrives in
      let d =
        connection-delivers client_id filter hello request suback x y w.traffic broker eh er size
          open_still w.whole arrives' in
      (d.0 ∙ w.as_messages, d.1, ap (λ r. r.0) w.run)
