-- ===== src/Web/Reader/Delivery.antt =====
-- What one connection of `_mqtt_reader` makes of the traffic of a broker.
use Prim.Native.Nat.add
use embeded_convey_belt.Prelude.{
  ℕ, suc, ◌+◌, ◌-◌, ◌^◌, ◌<◌, ◌≡◌, ◌∙◌, refl, sym, ap, Option, none, some, List, [], ◌∷◌, ◌++◌,
  append-nil, append_assoc, drop, drop-length-append, All, arith, length,
}
use embeded_convey_belt.Py.{Exc, Result, ok, err, timeout, eof_error, json_decode_error, Text, text}
use embeded_convey_belt.Py.Plain.{IsPlain, IsPlain-bind}
use embeded_convey_belt.Py.Utf8.{IsScalar, decode}
use embeded_convey_belt.Py.Json.{Json, obj, Fields}
use embeded_convey_belt.Py.Json.Loads.{loads}
use embeded_convey_belt.Py.Json.Total.{loads-IsPlain}
use embeded_convey_belt.Net.{Net}
use embeded_convey_belt.Net.Send.{sendall-accepting}
use embeded_convey_belt.Net.Stream.{Item, gap, bytes, stream}
use embeded_convey_belt.Wire.Encode.{enc_remlen}
use embeded_convey_belt.Wire.Names.{counted, unpack_h-counted}
use embeded_convey_belt.Wire.Packets.{
  packet, publish_packet, connect_packet, subscribe_packet, ping_request,
}
use embeded_convey_belt.Wire.Published.{publish_packet-Body}
use embeded_convey_belt.Wire.Frames.{
  read_frame-packet, read_frame-gap, read_frame-closed, packet-longer,
}
use embeded_convey_belt.Wire.Segments.{After}
use embeded_convey_belt.Subscriber.Delivery.{
  Traffic, published, pong, quiet, IsWhole, wire, length-le-wire,
}
use embeded_convey_belt.Subscriber.Connections.{handshake_ok}
use embeded_convey_belt.Web.Reader.{
  Heard, after_round, handle_publish, read_event, read_events, listen,
}
use embeded_convey_belt.Py.Clock.{wall_clock, wall_clock-IsPlain}
use embeded_convey_belt.Web.Reader.Stamp.{created_at, stamp, event_of}

-- What is to come of some traffic: the events, the exception at the end, and the bytes written.
pub record Outcome : Type 0 where
  pub events : List Fields
  pub ended_by : Exc
  pub written : List ℕ

abbrev pub then_hear : Result (Option Fields) → Outcome → Outcome
then_hear (ok none) rest = rest
then_hear (ok (some ev)) rest = record rest { events = ev ∷ rest.events }
then_hear (err e) rest = record { events = []; ended_by = e; written = [] }

-- The payloads, each read at the time of its round, up to one that ends the connection.
abbrev pub hears : (Text → Result Text) → (ℕ → Text) → ℕ → List Traffic → Outcome
hears local clock k [] = record { events = []; ended_by = eof_error; written = [] }
hears local clock k (published t p bs ∷ ts) =
    then_hear (event_of local (clock k) (loads p)) (hears local clock (suc k) ts)
hears local clock k (pong ∷ ts) = hears local clock (suc k) ts
hears local clock k (quiet ∷ ts) =
    let rest = hears local clock (suc k) ts in
    record rest { written = ping_request ++ rest.written }

-- A heard connection as an outcome says.
pub record Matches (o : Outcome) (sent : List ℕ) (h : Heard) : Type 0 where
  pub events : h.events ≡ o.events
  pub ended_by : h.ended_by ≡ o.ended_by
  pub written : h.socket.sent ≡ sent ++ o.written

Matches-hear :
    (r : Result (Option Fields)) (o : Outcome) (next : Net → Heard) (net : Net)
    → IsPlain r
    → Matches o net.sent (next net)
    → Matches (then_hear r o) net.sent (after_round next (r, net))
Matches-hear (ok none) o next net plain m = m
Matches-hear (ok (some ev)) o next net plain m = record {
  events = ap (λ l. ev ∷ l) m.events;
  ended_by = m.ended_by;
  written = m.written;
}
Matches-hear (err timeout) o next net plain m = absurd plain
Matches-hear (err e) o next net plain m = record {
  events = refl;
  ended_by = refl;
  written = sym (append-nil net.sent);
}

module _ (local : Text → Result Text) (plain : (t : Text) → IsPlain (local t)) where
  stamp-IsPlain : (now : Text) (v : Json) → IsPlain (stamp local now v)
  stamp-IsPlain now (obj ev) =
      IsPlain-bind _ (λ wall. tt) (wall_clock local now (created_at now ev))
        (wall_clock-IsPlain local plain now (created_at now ev))
  stamp-IsPlain now v = tt

  pub event_of-IsPlain : (now : Text) (r : Result Json) → IsPlain r → IsPlain (event_of local now r)
  event_of-IsPlain now (ok v) h = stamp-IsPlain now v
  event_of-IsPlain now (err json_decode_error) h = tt
  event_of-IsPlain now (err e) h = h

  handle_publish-counted :
      (now p : Text) (name content : List ℕ) (net : Net)
      → decode content ≡ ok p
      → handle_publish local now (counted name ++ content) net ≡ (event_of local now (loads p), net)
  unfolding handle_publish
  handle_publish-counted now p name content net ep =
      let rest : drop (2 + length name) (counted name ++ content) ≡ content =
        rw (add.suc, add.suc, add.zero) (drop-length-append name content) in
      rw (unpack_h-counted (length name), rest, ep)

  pub read_event-publish_packet :
      (now t p : Text) (bs : List ℕ) (s : List Item) (net : Net)
      → All IsScalar t
      → All IsScalar p
      → publish_packet t p ≡ ok bs
      → length bs < 128 ^ 4
      → stream net.incoming ≡ bytes bs s
      → (net' : Net) × (read_event local now net ≡ (event_of local now (loads p), net'))
        × After net s net'
  unfolding read_event
  read_event-publish_packet now t p bs s net ht hp e h arrives =
      let b = publish_packet-Body t p bs ht hp e in
      let (net', got, after) =
        read_frame-packet 0x30 (counted b.name ++ b.content) bs s net b.packed
          (omega (arith, packet-longer 0x30 _ _ b.packed)) arrives in
      (net', rw got (handle_publish-counted now p b.name b.content net' b.payload), after)

  read_event-pong :
      (now : Text) (s : List Item) (net : Net)
      → stream net.incoming ≡ bytes (0xd0 ∷ 0x00 ∷ []) s
      → (net' : Net) × (read_event local now net ≡ (ok none, net')) × After net s net'
  unfolding read_event
  read_event-pong now s net e =
      let (net', got, after) =
        read_frame-packet 0xd0 [] (0xd0 ∷ 0x00 ∷ []) s net (unfold packet enc_remlen in refl)
          (omega arith) e in
      (net', rw got refl, after)

  read_event-gap :
      (now : Text) (s : List Item) (net : Net)
      → stream net.incoming ≡ gap ∷ s
      → (net' : Net) × (read_event local now net ≡ (err timeout, net')) × After net s net'
  unfolding read_event
  read_event-gap now s net e =
      let (net', got, after) = read_frame-gap s net e in (net', rw got refl, after)

  read_event-closed :
      (now : Text) (net : Net)
      → stream net.incoming ≡ []
      → (net' : Net) × (read_event local now net ≡ (err eof_error, net')) × After net [] net'
  unfolding read_event
  read_event-closed now net e =
      let (net', got, after) = read_frame-closed net e in (net', rw got refl, after)

  module _ (clock : ℕ → Text) where
    read_events-traffic :
        (ts : List Traffic) (k fuel : ℕ) (net : Net)
        → All IsWhole ts
        → stream net.incoming ≡ wire ts []
        → net.outcomes ≡ []
        → Matches
            (hears local clock k ts)
            net.sent
            (read_events local clock k (length ts + suc fuel) net)
    unfolding read_events
    read_events-traffic [] k fuel net whole e accepting =
        let (net₁, got, after) = read_event-closed (clock k) net e in
        rw (add.zero, got)
          (record {
            events = refl;
            ended_by = refl;
            written = after.sent ∙ sym (append-nil net.sent);
          })
    read_events-traffic (published t p bs ∷ ts) k fuel net ((ht, hp, packed, small), whole) e
          accepting =
        let (net₁, got, after) =
          read_event-publish_packet (clock k) t p bs (wire ts []) net ht hp packed small e in
        let rest =
          read_events-traffic ts (suc k) fuel net₁ whole after.left (after.outcomes ∙ accepting) in
        rw (add.suc, got)
          (rw after.sent at (
            Matches-hear (event_of local (clock k) (loads p)) (hears local clock (suc k) ts)
              (λ n. read_events local clock (suc k) (length ts + suc fuel) n) net₁
              (event_of-IsPlain (clock k) (loads p) (loads-IsPlain p)) rest))
    read_events-traffic (pong ∷ ts) k fuel net (_, whole) e accepting =
        let (net₁, got, after) = read_event-pong (clock k) (wire ts []) net e in
        let rest =
          read_events-traffic ts (suc k) fuel net₁ whole after.left (after.outcomes ∙ accepting) in
        rw (add.suc, got) (rw after.sent at rest)
    read_events-traffic (quiet ∷ ts) k fuel net (_, whole) e accepting =
        let (net₁, got, after) = read_event-gap (clock k) (wire ts []) net e in
        let open_still = after.outcomes ∙ accepting in
        let net₂ : Net = record net₁ { sent = net₁.sent ++ ping_request } in
        let rest = read_events-traffic ts (suc k) fuel net₂ whole after.left open_still in
        rw (add.suc, got, sendall-accepting ping_request net₁ open_still)
          (record {
            events = rest.events;
            ended_by = rest.ended_by;
            written =
                rest.written
                ∙ append_assoc net₁.sent ping_request (hears local clock (suc k) ts).written
                ∙ ap (λ l. l ++ (ping_request ++ (hears local clock (suc k) ts).written))
                    after.sent;
          })

    -- A connection of `_mqtt_reader` that the broker accepts, on a socket that accepts all, and that
    -- carries whole packets (PUBLISH with no flags and text that has an encoding, and PINGRESP), each below
    -- 128 ^ 4 bytes, with silences between them up to its end. Each
    -- payload is read by `json.loads` in its round: an object is taken with its `_wall` time, text that is
    -- no JSON is passed over, and any other exception (a value that is no object, a time that `localtime`
    -- refuses) ends the connection there, with the events so far. CONNECT, SUBSCRIBE and a PINGREQ for
    -- each silence are written. The rendering of local time raises no timeout.
    pub listen-hears :
        (topic : Text) (hello request suback : List ℕ) (x y : ℕ) (ts : List Traffic) (net : Net)
        → connect_packet (text "conveyor-web") ≡ ok hello
        → subscribe_packet topic ≡ ok request
        → length suback ≡ 5
        → net.outcomes ≡ []
        → All IsWhole ts
        → stream net.incoming ≡ bytes (0x20 ∷ x ∷ y ∷ 0 ∷ suback) (wire ts [])
        → ((listen local topic clock net).events ≡ (hears local clock 0 ts).events)
          × ((listen local topic clock net).ended_by ≡ (hears local clock 0 ts).ended_by)
          × ((listen local topic clock net).socket.sent
              ≡ net.sent ++ hello ++ request ++ (hears local clock 0 ts).written)
    unfolding listen
    listen-hears topic hello request suback x y ts net eh er size accepting whole arrives =
        let (net', greeted, left, open_still, sent) =
          handshake_ok (text "conveyor-web") topic hello request suback x y (wire ts []) net eh er
            size accepting arrives in
        let spare = length (stream net'.incoming) - length ts in
        let fuel : suc (length (stream net'.incoming)) ≡ length ts + suc spare =
          omega (arith, length-le-wire ts [] whole, ap length left) in
        let m = read_events-traffic ts 0 spare net' whole left open_still in
        rw (greeted, fuel)
          (m.events, m.ended_by, m.written ∙ ap (λ l. l ++ (hears local clock 0 ts).written) sent)
