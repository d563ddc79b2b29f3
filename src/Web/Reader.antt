-- ===== src/Web/Reader.antt =====
-- `_mqtt_reader` of broker/conveyor_web.py: one PUBLISH packet, one round of the reading loop, one
-- connection, and the loop that connects again. The handshake is that of the subscriber, letter by letter.
pub mod Stamp
pub mod Delivery
pub mod Progress
pub mod EndToEnd
pub mod Reconnect
pub mod Refused
mod Examples
use embeded_convey_belt.Prelude.{
  ℕ, zero, suc, ◌+◌, Option, none, some, true, false, List, [], ◌∷◌, ◌++◌, map, take, drop, length,
  ◌==◌, if◌then◌else◌,
}
use embeded_convey_belt.Py.{Exc, Result, ok, err, timeout, os_error, stuck, Text, text}
use embeded_convey_belt.Py.Utf8.{decode}
use embeded_convey_belt.Py.Struct.{unpack_h}
use embeded_convey_belt.Py.Json.{Fields}
use embeded_convey_belt.Py.Json.Loads.{loads}
use embeded_convey_belt.Net.{Net, Attempt, refused, connected, Io, pure, lift, ◌>>=◌, sendall}
use embeded_convey_belt.Net.Stream.{stream}
use embeded_convey_belt.Wire.Receive.{read_frame}
use embeded_convey_belt.Wire.Packets.{ping_request}
use embeded_convey_belt.Subscriber.{handshake}
use embeded_convey_belt.Web.Reader.Stamp.{event_of}
use embeded_convey_belt.Web.{Action, stored, broadcasted}

-- A connection has heard these events, and this exception ended it.
pub record Heard : Type 0 where
  pub events : List Fields
  pub ended_by : Exc
  pub socket : Net

abbrev pub hear : Option Fields → Heard → Heard
hear none h = h
hear (some ev) h = record h { events = ev ∷ h.events }

abbrev pub after_ping : (Net → Heard) → Result (Unit {0}) × Net → Heard
after_ping next (ok _, net) = next net
after_ping next (err e, net) = record { events = []; ended_by = e; socket = net }

-- What follows one round: a timeout is answered by a PINGREQ, and any other exception leaves the loop.
abbrev pub after_round : (Net → Heard) → Result (Option Fields) × Net → Heard
after_round next (ok found, net) = hear found (next net)
after_round next (err timeout, net) = after_ping next (sendall ping_request net)
after_round next (err e, net) = record { events = []; ended_by = e; socket = net }

module _ (local : Text → Result Text) where
  -- The payload behind the topic, which is not decoded here.
  unfoldable pub handle_publish : Text → List ℕ → Io (Option Fields)
  handle_publish now body = do
    tlen ← lift (unpack_h (take 2 body))
    payload ← lift (decode (drop (2 + tlen) body))
    lift (event_of local now (loads payload))

  unfoldable pub read_event : Text → Io (Option Fields)
  read_event now = do
    (pkt_type, body) ← read_frame
    if pkt_type == 0x30 then handle_publish now body else pure none

  -- `while True` of one connection; `clock k` is what `time.time()` returns in round k.
  unfoldable pub read_events : (ℕ → Text) → ℕ → ℕ → Net → Heard
  read_events clock k zero net = record { events = []; ended_by = stuck; socket = net }
  read_events clock k (suc fuel) net =
      after_round (λ net'. read_events clock (suc k) fuel net') (read_event (clock k) net)

  abbrev pub after_hello : (ℕ → Text) → Result (Unit {0}) × Net → Heard
  after_hello clock (ok _, net) = read_events clock 0 (suc (length (stream net.incoming))) net
  after_hello clock (err e, net) = record { events = []; ended_by = e; socket = net }

  -- One connection. As in the subscriber, each round that goes on takes a byte or a silence.
  unfoldable pub listen : Text → (ℕ → Text) → Net → Heard
  listen topic clock net = after_hello clock (handshake (text "conveyor-web") topic net)

-- What the reader does outside: it stores and broadcasts an event, or prints an error and sleeps.
pub data Did : Type 0 where
  acts : Action Fields → Did
  mqtt_error : Exc → Did

-- with _state_lock: ..., and _broadcast(ev)
abbrev pub handle_events : List Fields → List (Action Fields)
handle_events [] = []
handle_events (ev ∷ evs) = stored ev ∷ broadcasted ev ∷ handle_events evs

abbrev pub reported : Heard → List Did
reported heard = map acts (handle_events heard.events) ++ mqtt_error heard.ended_by ∷ []

-- `_mqtt_reader`, over the outcomes of its calls of `create_connection`, each with its clock.
unfoldable pub mqtt_reader : (Text → Result Text) → Text → List (Attempt × (ℕ → Text)) → List Did
mqtt_reader local topic [] = []
mqtt_reader local topic ((refused, clock) ∷ attempts) =
    mqtt_error os_error ∷ mqtt_reader local topic attempts
mqtt_reader local topic ((connected net, clock) ∷ attempts) =
    reported (listen local topic clock net) ++ mqtt_reader local topic attempts
