-- ===== src/Daemon/Round.antt =====
-- One whole round of the daemon's `while True`.
use embeded_convey_belt.Prelude.{
  ℕ, ◌≡◌, ◌∙◌, refl, ap, some, List, [], ◌∷◌, ◌++◌, append-nil, map, All,
}
use embeded_convey_belt.Py.{ok, Text}
use embeded_convey_belt.Py.Utf8.{IsScalar}
use embeded_convey_belt.Net.{Net, connected}
use embeded_convey_belt.Net.Send.{sendall-accepting}
use embeded_convey_belt.Net.Stream.{Item, bytes, stream}
use embeded_convey_belt.Wire.Names.{Fits}
use embeded_convey_belt.Wire.Packets.{connect_packet, disconnect_request}
use embeded_convey_belt.Wire.Receive.{check_connack}
use embeded_convey_belt.Wire.Segments.{recvn-bytes}
use embeded_convey_belt.Publisher.{MqttPublisher, fresh, connect, disconnect}
use embeded_convey_belt.Daemon.{payload, opened, round}
use embeded_convey_belt.Daemon.EndToEnd.{Timed, readings, payloads, IsUsual, read_lines-Written}
use embeded_convey_belt.Subscriber.Delivery.{Traffic, IsWhole, wire, messages}

connect_ok :
    (client_id : Text) (hello : List ℕ) (x y : ℕ) (s : List Item) (net : Net)
    → connect_packet client_id ≡ ok hello
    → net.outcomes ≡ []
    → stream net.incoming ≡ bytes (0x20 ∷ x ∷ y ∷ 0 ∷ []) s
    → (net' : Net) × (connect (connected net) (fresh client_id)
        ≡ (ok tt, record { client_id = client_id; sock = some net' }))
      × (net'.outcomes ≡ [])
      × (net'.sent ≡ net.sent ++ hello)
unfolding connect check_connack
connect_ok client_id hello x y s net eh accepting arrives =
    let net₁ : Net = record net { sent = net.sent ++ hello } in
    let (net₂, got, after) = recvn-bytes (0x20 ∷ x ∷ y ∷ 0 ∷ []) s net₁ arrives in
    (
      net₂,
      rw (eh, sendall-accepting hello net accepting, got) refl,
      after.outcomes ∙ accepting,
      after.sent,
    )

module _ (topic node_id : Text) (name : List ℕ) (scalar : All IsScalar topic)
    (fits : Fits topic name) where
  -- A round on a socket that accepts all, whose broker accepts the client, over the lines that the driver
  -- makes of `evs`: it prints their payloads, and its socket, closed at the end, has sent CONNECT, then
  -- packets that carry exactly these payloads in order under the daemon's topic, then DISCONNECT. The
  -- times are printable, each payload is below 2 ^ 27 characters, and the topic has an encoding that fits
  -- its length field.
  pub round-publishes :
      (client_id : Text) (hello : List ℕ) (x y : ℕ) (s : List Item) (net : Net) (evs : List Timed)
      → connect_packet client_id ≡ ok hello
      → net.outcomes ≡ []
      → stream net.incoming ≡ bytes (0x20 ∷ x ∷ y ∷ 0 ∷ []) s
      → IsUsual node_id evs
      → (net' : Net) × (traffic : List Traffic) × (out : List ℕ) × (round topic node_id client_id
            (connected net)
            (opened (readings evs))
          ≡ (map payload (payloads node_id evs), some net'))
        × (net'.sent ≡ net.sent ++ hello ++ out ++ disconnect_request)
        × All IsWhole traffic
        × (wire traffic [] ≡ bytes out [])
        × (messages traffic ≡ map (λ p. (topic, p)) (payloads node_id evs))
  unfolding round disconnect
  round-publishes client_id hello x y s net evs eh accepting arrives usual =
      let (net₁, ready, accepting₁, greeted) =
        connect_ok client_id hello x y s net eh accepting arrives in
      let self : MqttPublisher = record { client_id = client_id; sock = some net₁ } in
      let w =
        read_lines-Written topic node_id name scalar fits evs net₁ self usual refl accepting₁ in
      let net₂ : Net = record net₁ { sent = net₁.sent ++ w.out } in
      let net₃ : Net = record net₂ { sent = net₂.sent ++ disconnect_request } in
      (
        net₃,
        w.traffic,
        w.out,
        rw (ready, w.run, sendall-accepting disconnect_request net₂ accepting₁)
            (ap (λ l. (l, some net₃)) (append-nil (map payload (payloads node_id evs)))),
        ap (λ l. l ++ w.out ++ disconnect_request) greeted,
        w.whole,
        w.on_wire,
        w.as_messages,
      )
