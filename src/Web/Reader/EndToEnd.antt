-- ===== src/Web/Reader/EndToEnd.antt =====
-- From the lines of the driver, through the daemon and the broker, to the state of the web server.
use embeded_convey_belt.Prelude.{
  ℕ, suc, ◌≡◌, ◌∙◌, refl, sym, ap, some, List, [], ◌∷◌, ◌++◌, map, append-nil, append_assoc, All,
  length, take, drop-length-append, arith,
}
use embeded_convey_belt.Py.{Result, ok, eof_error, Text, text}
use embeded_convey_belt.Py.Utf8.{IsScalar}
use embeded_convey_belt.Py.Json
use embeded_convey_belt.Py.Json.{obj, Fields, set_field, dumps_json}
use embeded_convey_belt.Py.Json.Loads.{loads}
use embeded_convey_belt.Py.Json.Numbers.{IsReal}
use embeded_convey_belt.Net.{Net}
use embeded_convey_belt.Net.Stream.{bytes, stream}
use embeded_convey_belt.Wire.Names.{Fits}
use embeded_convey_belt.Wire.Packets.{connect_packet, subscribe_packet}
use embeded_convey_belt.Event.{str, assign}
use embeded_convey_belt.Event.Loads.{of_event, IsSound-assign, loads-dumps_event}
use embeded_convey_belt.Driver.{ConveyorEvent}
use embeded_convey_belt.Driver.Line.{parsed}
use embeded_convey_belt.Driver.Sound.{parsed-IsSound}
use embeded_convey_belt.Publisher.{MqttPublisher}
use embeded_convey_belt.Daemon.{payload_of, read_lines}
use embeded_convey_belt.Daemon.EndToEnd.{
  Timed, readings, payloads, IsUsual, AllReal, sent_since, read_lines-Written,
}
use embeded_convey_belt.Subscriber.{Message}
use embeded_convey_belt.Subscriber.Delivery.{Traffic, published, pong, quiet, wire, messages}
use embeded_convey_belt.Web.{Bytes, max_history, run}
use embeded_convey_belt.Web.History.{recorded}
use embeded_convey_belt.Web.Routes.{whole, sized, state_json, do_get, opened, newest, do_get-run}
use embeded_convey_belt.Web.Reader.{handle_events, listen}
use embeded_convey_belt.Web.Reader.Stamp.{event_of}
use embeded_convey_belt.Web.Reader.Delivery.{hears, listen-hears}
use mathlib.Core.List.{reverse, reverse-append}

-- The event as the web server keeps it.
abbrev pub kept : (Text → Text) → Text → Timed → Fields
kept wall node_id (now, ev) =
    set_field (text "_wall") (Json.str (wall now))
      (of_event (assign (text "node_id") (str node_id) (parsed now ev)))

abbrev pub kept_all : (Text → Text) → Text → List Timed → List Fields
kept_all wall node_id [] = []
kept_all wall node_id (e ∷ evs) = kept wall node_id e ∷ kept_all wall node_id evs

event_of-payload :
    (wall : Text → Text) (node_id now time : Text) (ev : ConveyorEvent)
    → All IsScalar node_id
    → IsReal now
    → event_of (λ t. ok (wall t)) time (loads (payload_of node_id (parsed now ev)))
      ≡ ok (some (kept wall node_id (now, ev)))
event_of-payload wall node_id now time ev hn h =
    let sound =
      IsSound-assign (text "node_id") (str node_id) (parsed now ev) (omega arith) hn
        (parsed-IsSound now ev h) in
    rw (loads-dumps_event (assign (text "node_id") (str node_id) (parsed now ev)) sound.0 sound.1)
      (unfold assign in refl)

-- The messages are read as these events, at any time.
abbrev Reads : (Text → Result Text) → List Message → List Fields → Type 0
Reads local [] [] = Unit
Reads local [] (ev ∷ evs) = ⊥
Reads local ((t, p) ∷ ms) [] = ⊥
Reads local ((t, p) ∷ ms) (ev ∷ evs) =
    ((now : Text) → event_of local now (loads p) ≡ ok (some ev)) × Reads local ms evs

payloads-Reads :
    (wall : Text → Text) (topic node_id : Text) (evs : List Timed)
    → All IsScalar node_id
    → AllReal evs
    → Reads
        (λ t. ok (wall t))
        (map (λ p. (topic, p)) (payloads node_id evs))
        (kept_all wall node_id evs)
payloads-Reads wall topic node_id [] hn h = tt
payloads-Reads wall topic node_id ((now, ev) ∷ evs) hn h = (
  λ time. event_of-payload wall node_id now time ev hn h.0,
  payloads-Reads wall topic node_id evs hn h.1,
)

hears-Reads :
    (local : Text → Result Text) (clock : ℕ → Text) (k : ℕ) (ts : List Traffic) (evs : List Fields)
    → Reads local (messages ts) evs
    → ((hears local clock k ts).events ≡ evs) × ((hears local clock k ts).ended_by ≡ eof_error)
hears-Reads local clock k [] [] h = (refl, refl)
hears-Reads local clock k [] (ev ∷ evs) h = absurd h
hears-Reads local clock k (published t p bs ∷ ts) [] h = absurd h
hears-Reads local clock k (published t p bs ∷ ts) (ev ∷ evs) h =
    let (rest, ended) = hears-Reads local clock (suc k) ts evs h.1 in
    rw (h.0 (clock k)) (ap (λ l. ev ∷ l) rest, ended)
hears-Reads local clock k (pong ∷ ts) evs h = hears-Reads local clock (suc k) ts evs h
hears-Reads local clock k (quiet ∷ ts) evs h = hears-Reads local clock (suc k) ts evs h

recorded-handle_events :
    (evs earlier : List Fields) → recorded (handle_events evs) earlier ≡ reverse evs ++ earlier
recorded-handle_events [] earlier = refl
recorded-handle_events (ev ∷ evs) earlier =
    recorded-handle_events evs (ev ∷ earlier)
    ∙ rw (reverse-append (ev ∷ []) evs) (sym (append_assoc (reverse evs) (ev ∷ []) earlier))

abbrev pub json : Fields → Bytes
json ev = dumps_json (obj ev)

module _ (wall : Text → Text) (clock : ℕ → Text) (topic node_id : Text) (name : List ℕ)
    (scalar : All IsScalar topic) (fits : Fits topic name) where
  -- The daemon and the web server together. The daemon, on a socket that accepts all, handles the lines
  -- that the driver makes of `evs`; what the socket has then sent reaches the web server's reader, whose
  -- broker accepts it, behind CONNACK and SUBACK and cut into segments anyhow. Then the reader takes
  -- exactly these events, in order, with all values of the driver, the node's id and the rendered time of
  -- `created_at`, and ends with EOFError; when it has stored and broadcast them, `/api/state` answers the
  -- newest and the 200 newest of them, the newest first. The times are printable decimal forms, each
  -- payload is below 2 ^ 27 characters, the node's id is of scalar values, the topic has an encoding that
  -- fits its length field, and local time is rendered as `wall`.
  pub read_lines-listen :
      (evs : List Timed) (net broker : Net) (self : MqttPublisher) (filter : Text) (html : Bytes)
      (hello request suback : List ℕ) (x y : ℕ)
      → IsUsual node_id evs
      → AllReal evs
      → All IsScalar node_id
      → self.sock ≡ some net
      → net.outcomes ≡ []
      → connect_packet (text "conveyor-web") ≡ ok hello
      → subscribe_packet filter ≡ ok request
      → length suback ≡ 5
      → broker.outcomes ≡ []
      → stream broker.incoming
        ≡ bytes
            (0x20 ∷ x ∷ y ∷ 0 ∷ suback)
            (bytes (sent_since net (read_lines topic node_id (readings evs) self).2.sock) [])
      → ((listen (λ t. ok (wall t)) filter clock broker).events ≡ kept_all wall node_id evs)
        × ((listen (λ t. ok (wall t)) filter clock broker).ended_by ≡ eof_error)
        × (do_get json html
              (text "/api/state")
              (run json
                (handle_events (listen (λ t. ok (wall t)) filter clock broker).events)
                opened).0
            ≡ whole (
                sized (text "application/json") (
                  state_json json
                    (newest (reverse (kept_all wall node_id evs)))
                    (take max_history (reverse (kept_all wall node_id evs))))))
  read_lines-listen evs net broker self filter html hello request suback x y usual real_times hn
        there accepting eh er size open_still arrives =
      let w =
        read_lines-Written topic node_id name scalar fits evs net self usual there accepting in
      let same : sent_since net (read_lines topic node_id (readings evs) self).2.sock ≡ w.out =
        rw w.run (drop-length-append net.sent w.out) in
      let arrives' : stream broker.incoming
          ≡ bytes (0x20 ∷ x ∷ y ∷ 0 ∷ suback) (wire w.traffic []) =
        rw (w.on_wire, ← same) arrives in
      let heard =
        listen-hears (λ t. ok (wall t)) (λ t. tt) clock filter hello request suback x y w.traffic
          broker eh er size open_still w.whole arrives' in
      let reads : Reads (λ t. ok (wall t)) (messages w.traffic) (kept_all wall node_id evs) =
        rw w.as_messages (payloads-Reads wall topic node_id evs hn real_times) in
      let (all, ended) =
        hears-Reads (λ t. ok (wall t)) clock 0 w.traffic (kept_all wall node_id evs) reads in
      let past : recorded (handle_events (kept_all wall node_id evs)) []
          ≡ reverse (kept_all wall node_id evs) =
        recorded-handle_events (kept_all wall node_id evs) []
        ∙ append-nil (reverse (kept_all wall node_id evs)) in
      let answer = do_get-run json html (handle_events (kept_all wall node_id evs)) in
      (heard.0 ∙ all, heard.1 ∙ ended, rw (heard.0 ∙ all) (rw past at answer))
