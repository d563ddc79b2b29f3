-- ===== src/Subscriber/Delivery.antt =====
-- What the reading loop yields from the traffic of a broker.
use Prim.Native.Nat.add
use embeded_convey_belt.Prelude.{
  ℕ, suc, ◌+◌, ◌^◌, ◌≤◌, ◌<◌, ◌≡◌, ◌∙◌, refl, sym, ap, none, List, [], ◌∷◌, ◌++◌, append-nil,
  append_assoc, All, arith, length,
}
use embeded_convey_belt.Py.{ok, eof_error, Text}
use embeded_convey_belt.Py.Utf8.{IsScalar}
use embeded_convey_belt.Net.{Net}
use embeded_convey_belt.Net.Send.{sendall-accepting}
use embeded_convey_belt.Net.Stream.{Item, gap, bytes, stream}
use embeded_convey_belt.Wire.Encode.{enc_remlen}
use embeded_convey_belt.Wire.Packets.{packet, publish_packet, ping_request}
use embeded_convey_belt.Wire.Segments.{After}
use embeded_convey_belt.Wire.Frames.{packet-longer}
use embeded_convey_belt.Wire.Published.{publish_packet-Body}
use embeded_convey_belt.Subscriber.{Message, Session, read_packet, read_loop}
use embeded_convey_belt.Subscriber.Rounds.{
  read_packet-packet, read_packet-publish_packet, read_packet-gap, read_packet-closed,
}

-- What a broker sends between the handshake and the end: a PUBLISH packet with its bytes, a PINGRESP,
-- or nothing for as long as the socket's timeout.
pub data Traffic : Type 0 where
  published : Text → Text → List ℕ → Traffic
  pong quiet : Traffic

abbrev pub IsWhole : Traffic → Type 0
IsWhole (published t p bs) =
    All IsScalar t × All IsScalar p × (publish_packet t p ≡ ok bs) × (length bs < 128 ^ 4)
IsWhole pong = Unit
IsWhole quiet = Unit

abbrev pub wire : List Traffic → List Item → List Item
wire [] s = s
wire (published t p bs ∷ ts) s = bytes bs (wire ts s)
wire (pong ∷ ts) s = bytes (0xd0 ∷ 0x00 ∷ []) (wire ts s)
wire (quiet ∷ ts) s = gap ∷ wire ts s

abbrev pub messages : List Traffic → List Message
messages [] = []
messages (published t p bs ∷ ts) = (t, p) ∷ messages ts
messages (pong ∷ ts) = messages ts
messages (quiet ∷ ts) = messages ts

-- The bytes that the loop writes for its silences.
abbrev pub pings : List Traffic → List ℕ
pings [] = []
pings (published t p bs ∷ ts) = pings ts
pings (pong ∷ ts) = pings ts
pings (quiet ∷ ts) = ping_request ++ pings ts

abbrev pub after_messages : List Message → Session → Session
after_messages ms session = record session { yielded = ms ++ session.yielded }

-- The socket later: the rest of its stream is `s`, and `ps` was written.
record Past (ps : List ℕ) (s : List Item) (net net' : Net) : Type 0 where
  left : stream net'.incoming ≡ s
  accepting : net'.outcomes ≡ []
  written : net'.sent ≡ net.sent ++ ps

later : {ps : List ℕ} {r s : List Item} {a b c : Net} → After a r b → Past ps s b c → Past ps s a c
later {ps} h p = record {
  left = p.left;
  accepting = p.accepting;
  written = p.written ∙ ap (λ w. w ++ ps) h.sent;
}

pinged :
    {ps : List ℕ} {s : List Item} {b c : Net}
    → Past ps s (record b { sent = b.sent ++ ping_request }) c
    → Past (ping_request ++ ps) s b c
pinged {ps} {b = b} p = record {
  left = p.left;
  accepting = p.accepting;
  written = p.written ∙ append_assoc b.sent ping_request ps;
}

read_pong :
    (s : List Item) (net : Net)
    → stream net.incoming ≡ bytes (0xd0 ∷ 0x00 ∷ []) s
    → (net' : Net) × (read_packet net ≡ (ok none, net')) × After net s net'
read_pong s net e =
    read_packet-packet 0xd0 [] (0xd0 ∷ 0x00 ∷ []) s net (unfold packet enc_remlen in refl)
      (omega arith) e

read_loop-traffic :
    (ts : List Traffic) (fuel : ℕ) (s : List Item) (net : Net)
    → All IsWhole ts
    → stream net.incoming ≡ wire ts s
    → net.outcomes ≡ []
    → (net' : Net) × (read_loop (length ts + fuel) net
        ≡ after_messages (messages ts) (read_loop fuel net'))
      × Past (pings ts) s net net'
unfolding read_loop
read_loop-traffic [] fuel s net whole e accepting = (
  net,
  rw add.zero,
  record { left = e; accepting = accepting; written = sym (append-nil net.sent) },
)
read_loop-traffic (published t p bs ∷ ts) fuel s net ((ht, hp, packed, small), whole) e accepting =
    let (net₁, got, after) =
      read_packet-publish_packet t p bs (wire ts s) net ht hp packed small e in
    let (net₂, rest, past) =
      read_loop-traffic ts fuel s net₁ whole after.left (after.outcomes ∙ accepting) in
    (net₂, rw (add.suc, got, rest), later after past)
read_loop-traffic (pong ∷ ts) fuel s net (_, whole) e accepting =
    let (net₁, got, after) = read_pong (wire ts s) net e in
    let (net₂, rest, past) =
      read_loop-traffic ts fuel s net₁ whole after.left (after.outcomes ∙ accepting) in
    (net₂, rw (add.suc, got, rest), later after past)
read_loop-traffic (quiet ∷ ts) fuel s net (_, whole) e accepting =
    let (net₁, got, after) = read_packet-gap (wire ts s) net e in
    let open_still = after.outcomes ∙ accepting in
    let net₂ = record net₁ { sent = net₁.sent ++ ping_request } in
    let (net₃, rest, past) = read_loop-traffic ts fuel s net₂ whole after.left open_still in
    (
      net₃,
      rw (add.suc, got, sendall-accepting ping_request net₁ open_still, rest),
      later after (pinged past),
    )

closed_round :
    (fuel : ℕ) (net : Net)
    → stream net.incoming ≡ []
    → ((read_loop (suc fuel) net).yielded ≡ [])
      × ((read_loop (suc fuel) net).ended_by ≡ eof_error)
      × ((read_loop (suc fuel) net).socket.sent ≡ net.sent)
unfolding read_loop
closed_round fuel net e =
    let (net', got, after) = read_packet-closed net e in rw got (refl, refl, after.sent)

-- Traffic up to the end of the connection.
pub read_loop-closed :
    (ts : List Traffic) (fuel : ℕ) (net : Net)
    → All IsWhole ts
    → stream net.incoming ≡ wire ts []
    → net.outcomes ≡ []
    → ((read_loop (length ts + suc fuel) net).yielded ≡ messages ts)
      × ((read_loop (length ts + suc fuel) net).ended_by ≡ eof_error)
      × ((read_loop (length ts + suc fuel) net).socket.sent ≡ net.sent ++ pings ts)
read_loop-closed ts fuel net whole e accepting =
    let (net', run, past) = read_loop-traffic ts (suc fuel) [] net whole e accepting in
    let (nothing, ended, silent) = closed_round fuel net' past.left in
    rw run (rw nothing (append-nil (messages ts)), ended, silent ∙ past.written)

length-bytes : (bs : List ℕ) (s : List Item) → length (bytes bs s) ≡ length bs + length s
length-bytes [] s = omega arith
length-bytes (b ∷ bs) s = omega (arith, length-bytes bs s)

-- Each piece of traffic is something on the wire.
pub length-le-wire :
    (ts : List Traffic) (s : List Item) → All IsWhole ts → length ts ≤ length (wire ts s)
length-le-wire [] s h = omega arith
length-le-wire (published t p bs ∷ ts) s ((ht, hp, packed, small), h) =
    let b = publish_packet-Body t p bs ht hp packed in
    omega
      (arith, packet-longer 0x30 _ bs b.packed, length-bytes bs (wire ts s), length-le-wire ts s h)
length-le-wire (pong ∷ ts) s (_, h) = omega (arith, length-le-wire ts s h)
length-le-wire (quiet ∷ ts) s (_, h) = omega (arith, length-le-wire ts s h)
