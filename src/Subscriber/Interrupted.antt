-- ===== src/Subscriber/Interrupted.antt =====
-- A silence inside a packet: `mqtt_messages` answers the timeout by a PINGREQ and reads on.
use embeded_convey_belt.Prelude.{ℕ, suc, ◌^◌, ◌<◌, ◌≡◌, ◌∙◌, ap, List, [], ◌∷◌, ◌++◌, length}
use embeded_convey_belt.Py.{ok}
use embeded_convey_belt.Net.{Net}
use embeded_convey_belt.Net.Send.{sendall-accepting}
use embeded_convey_belt.Net.Stream.{Item, gap, bytes, stream}
use embeded_convey_belt.Wire.Encode.{enc_remlen}
use embeded_convey_belt.Wire.Packets.{ping_request}
use embeded_convey_belt.Wire.Frames.{read_frame-interrupted}
use embeded_convey_belt.Subscriber.{read_packet, read_loop}

-- A silence inside the body of a packet, on a socket that accepts all, where the body has fewer than
-- 128 ^ 4 bytes: the bytes in front of it are lost, a PINGREQ is written, and the next round of the loop
-- starts at the first byte of the rest of the body, as if a packet began there.
pub read_loop-interrupted :
    (fuel kind b : ℕ) (size front back : List ℕ) (s : List Item) (net : Net)
    → enc_remlen (length (front ++ b ∷ back)) ≡ ok size
    → length (front ++ b ∷ back) < 128 ^ 4
    → net.outcomes ≡ []
    → stream net.incoming ≡ bytes (kind ∷ size ++ front) (gap ∷ bytes (b ∷ back) s)
    → (net' : Net) × (read_loop (suc fuel) net ≡ read_loop fuel net')
      × (stream net'.incoming ≡ bytes (b ∷ back) s)
      × (net'.sent ≡ net.sent ++ ping_request)
unfolding read_loop read_packet
read_loop-interrupted fuel kind b size front back s net es h accepting arrives =
    let (net₁, got, after) = read_frame-interrupted kind b size front back s net es h arrives in
    let sends = sendall-accepting ping_request net₁ (after.outcomes ∙ accepting) in
    (
      record net₁ { sent = net₁.sent ++ ping_request },
      rw (got, sends),
      after.left,
      ap (λ l. l ++ ping_request) after.sent,
    )
