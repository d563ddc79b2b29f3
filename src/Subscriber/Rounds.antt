-- ===== src/Subscriber/Rounds.antt =====
-- One round of the reading loop on a packet that arrives whole.
use Prim.Native.Nat.add
use embeded_convey_belt.Prelude.{
  ℕ, ◌+◌, ◌^◌, ◌<◌, ◌≡◌, ◌∙◌, none, some, Option, List, [], ◌∷◌, ◌++◌, bit_and, drop, All, arith,
  length, take-length-append, drop-length-append, ◌==◌, if◌then◌else◌,
}
use embeded_convey_belt.Py.{Result, ok, err, timeout, eof_error, Text}
use embeded_convey_belt.Py.Utf8.{IsScalar, decode}
use embeded_convey_belt.Net.{Net, pure, ◌>>=◌}
use embeded_convey_belt.Net.Stream.{Item, gap, bytes, stream}
use embeded_convey_belt.Wire.Packets.{packet, publish_packet}
use embeded_convey_belt.Wire.Segments.{After}
use embeded_convey_belt.Wire.Names.{counted, unpack_h-counted}
use embeded_convey_belt.Wire.Published.{publish_packet-Body}
use embeded_convey_belt.Wire.Frames.{
  read_frame-packet, read_frame-gap, read_frame-closed, packet-longer,
}
use embeded_convey_belt.Subscriber.{Message, parse_publish, read_packet}

abbrev finish : ℕ → List ℕ → Net → Result (Option Message) × Net
finish kind body =
    if bit_and kind 0xf0 == 0x30 then (do m ← parse_publish body; pure (some m)) else pure none

-- What the round returns depends on the kind and the body of the packet.
pub read_packet-packet :
    (kind : ℕ) (body bs : List ℕ) (s : List Item) (net : Net)
    → packet kind body ≡ ok bs
    → length body < 128 ^ 4
    → stream net.incoming ≡ bytes bs s
    → (net' : Net) × (read_packet net ≡ finish kind body net') × After net s net'
unfolding read_packet
read_packet-packet kind body bs s net e h arrives =
    let (net', got, after) = read_frame-packet kind body bs s net e h arrives in
    (net', rw got, after)

-- The topic and the payload of a body that `publish` composed.
parse_publish-counted :
    (t p : Text) (name content : List ℕ) (net : Net)
    → decode name ≡ ok t
    → decode content ≡ ok p
    → parse_publish (counted name ++ content) net ≡ (ok (t, p), net)
unfolding parse_publish
parse_publish-counted t p name content net et ep =
    let rest : drop (2 + length name) (counted name ++ content) ≡ content =
      rw (add.suc, add.suc, add.zero) (drop-length-append name content) in
    rw (unpack_h-counted (length name), take-length-append name content, et, rest, ep)

-- A PUBLISH packet of a topic and a payload of scalar values, of fewer than 128 ^ 4 bytes, comes out of
-- the round as it went in, and what follows it is left.
pub read_packet-publish_packet :
    (t p : Text) (bs : List ℕ) (s : List Item) (net : Net)
    → All IsScalar t
    → All IsScalar p
    → publish_packet t p ≡ ok bs
    → length bs < 128 ^ 4
    → stream net.incoming ≡ bytes bs s
    → (net' : Net) × (read_packet net ≡ (ok (some (t, p)), net')) × After net s net'
read_packet-publish_packet t p bs s net ht hp e h arrives =
    let b = publish_packet-Body t p bs ht hp e in
    let (net', got, after) =
      read_packet-packet 0x30 (counted b.name ++ b.content) bs s net b.packed
        (omega (arith, packet-longer 0x30 _ _ b.packed)) arrives in
    (net', got ∙ rw (parse_publish-counted t p b.name b.content net' b.topic b.payload), after)

-- A silence in front of a packet.
pub read_packet-gap :
    (s : List Item) (net : Net)
    → stream net.incoming ≡ gap ∷ s
    → (net' : Net) × (read_packet net ≡ (err timeout, net')) × After net s net'
unfolding read_packet
read_packet-gap s net e = let (net', got, after) = read_frame-gap s net e in (net', rw got, after)

-- The end of the connection in front of a packet.
pub read_packet-closed :
    (net : Net)
    → stream net.incoming ≡ []
    → (net' : Net) × (read_packet net ≡ (err eof_error, net')) × After net [] net'
unfolding read_packet
read_packet-closed net e = let (net', got, after) = read_frame-closed net e in (net', rw got, after)
