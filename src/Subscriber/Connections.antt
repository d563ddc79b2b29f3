-- ===== src/Subscriber/Connections.antt =====
-- A whole connection: the handshake, the traffic and the end.
use embeded_convey_belt.Prelude.{
  ℕ, suc, ◌+◌, ◌-◌, ◌≡◌, ◌≢◌, ◌∙◌, refl, ap, List, [], ◌∷◌, ◌++◌, All, arith, length, ◌==◌, not,
  ◌||◌, true, ◌⊎◌,
}
use embeded_convey_belt.Py.{ok, eof_error, runtime_error, Text}
use embeded_convey_belt.Net.{Net}
use embeded_convey_belt.Net.Send.{sendall-accepting}
use embeded_convey_belt.Net.Stream.{Item, bytes, stream}
use embeded_convey_belt.Wire.Packets.{connect_packet, subscribe_packet}
use embeded_convey_belt.Wire.Segments.{recvn-bytes}
use embeded_convey_belt.Wire.Receive.{recvn, check_connack}
use embeded_convey_belt.Subscriber.{handshake, connection}
use embeded_convey_belt.Subscriber.Delivery.{
  Traffic, IsWhole, wire, messages, pings, read_loop-closed, length-le-wire,
}

pub handshake_ok :
    (client_id topic : Text) (hello request suback : List ℕ) (x y : ℕ) (s : List Item) (net : Net)
    → connect_packet client_id ≡ ok hello
    → subscribe_packet topic ≡ ok request
    → length suback ≡ 5
    → net.outcomes ≡ []
    → stream net.incoming ≡ bytes (0x20 ∷ x ∷ y ∷ 0 ∷ suback) s
    → (net' : Net) × (handshake client_id topic net ≡ (ok tt, net'))
      × (stream net'.incoming ≡ s)
      × (net'.outcomes ≡ [])
      × (net'.sent ≡ net.sent ++ hello ++ request)
unfolding handshake check_connack
handshake_ok client_id topic hello request suback x y s net eh er size accepting arrives =
    let net₁ : Net = record net { sent = net.sent ++ hello } in
    let (net₂, got₂, after₂) = recvn-bytes (0x20 ∷ x ∷ y ∷ 0 ∷ []) (bytes suback s) net₁ arrives in
    let net₃ : Net = record net₂ { sent = net₂.sent ++ request } in
    let (net₄, got₄, after₄) = recvn-bytes suback s net₃ after₂.left in
    let five : recvn 5 net₃ ≡ (ok suback, net₄) = rw (← size) got₄ in
    (
      net₄,
      rw (
        eh,
        sendall-accepting hello net accepting,
        got₂,
        er,
        sendall-accepting request net₂ (after₂.outcomes ∙ accepting),
        five,
      ),
      after₄.left,
      after₄.outcomes ∙ after₂.outcomes ∙ accepting,
      after₄.sent ∙ ap (λ l. l ++ request) after₂.sent,
    )

-- A connection that the broker accepts, whose socket accepts all that is written, and that carries
-- whole packets (PUBLISH with no flags and text that has an encoding, and PINGRESP), each below
-- 128 ^ 4 bytes, with silences between them up to its end, yields exactly the
-- published messages, in order and cut into segments anyhow; it writes CONNECT, SUBSCRIBE and one PINGREQ
-- for each silence, and ends with EOFError.
pub connection-delivers :
    (client_id topic : Text) (hello request suback : List ℕ) (x y : ℕ) (ts : List Traffic)
    (net : Net)
    → connect_packet client_id ≡ ok hello
    → subscribe_packet topic ≡ ok request
    → length suback ≡ 5
    → net.outcomes ≡ []
    → All IsWhole ts
    → stream net.incoming ≡ bytes (0x20 ∷ x ∷ y ∷ 0 ∷ suback) (wire ts [])
    → ((connection client_id topic net).yielded ≡ messages ts)
      × ((connection client_id topic net).ended_by ≡ eof_error)
      × ((connection client_id topic net).socket.sent ≡ net.sent ++ hello ++ request ++ pings ts)
unfolding connection
connection-delivers client_id topic hello request suback x y ts net eh er size accepting whole
      arrives =
    let (net', greeted, left, open_still, written) =
      handshake_ok client_id topic hello request suback x y (wire ts []) net eh er size accepting
        arrives in
    let spare = length (stream net'.incoming) - length ts in
    let fuel : suc (length (stream net'.incoming)) ≡ length ts + suc spare =
      omega (arith, length-le-wire ts [] whole, ap length left) in
    let (yields, ended, sent) = read_loop-closed ts spare net' whole left open_still in
    rw (greeted, fuel) (yields, ended, sent ∙ ap (λ l. l ++ pings ts) written)

-- On a socket that accepts all that is written, a CONNACK with another first byte, or with a return code
-- that is not 0, ends the connection with a RuntimeError before SUBSCRIBE is written, and nothing is
-- yielded.
pub connection-refused :
    (client_id topic : Text) (hello : List ℕ) (kind x y code : ℕ) (s : List Item) (net : Net)
    → connect_packet client_id ≡ ok hello
    → net.outcomes ≡ []
    → stream net.incoming ≡ bytes (kind ∷ x ∷ y ∷ code ∷ []) s
    → (kind ≢ 0x20) ⊎ (code ≢ 0)
    → ((connection client_id topic net).yielded ≡ [])
      × ((connection client_id topic net).ended_by ≡ runtime_error)
      × ((connection client_id topic net).socket.sent ≡ net.sent ++ hello)
unfolding connection handshake check_connack
connection-refused client_id topic hello kind x y code s net eh accepting arrives bad =
    let net₁ : Net = record net { sent = net.sent ++ hello } in
    let (net₂, got₂, after₂) = recvn-bytes (kind ∷ x ∷ y ∷ code ∷ []) s net₁ arrives in
    let wrong : (not (kind == 0x20) || not (code == 0)) ≡ true = ground arith in
    rw (eh, sendall-accepting hello net accepting, got₂, wrong) (refl, refl, after₂.sent)
