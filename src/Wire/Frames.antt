-- ===== src/Wire/Frames.antt =====
-- How one packet comes out of a socket: whole, behind a silence, cut by one, or not at all.
use Prim.Native.Nat.add
use embeded_convey_belt.Prelude.{
  ℕ, suc, ◌+◌, ◌^◌, ◌<◌, ◌≡◌, ◌∙◌, refl, ap, List, [], ◌∷◌, ◌++◌, bit_and, arith, length,
  length-append, false, ◌==◌, if◌then◌else◌,
}
use embeded_convey_belt.Py.{ok, err, timeout, eof_error}
use embeded_convey_belt.Net.{Net, pure}
use embeded_convey_belt.Net.Stream.{Item, byte, gap, bytes, bytes-append, stream, take_bytes}
use embeded_convey_belt.Wire.Encode.{enc_remlen}
use embeded_convey_belt.Wire.Receive.{recvn, read_frame}
use embeded_convey_belt.Wire.Packets.{packet}
use embeded_convey_belt.Wire.Segments.{After, After-trans, recvn_fails, recvn-bytes}
use embeded_convey_belt.Wire.Groups.{enc_remlen-returns}
use embeded_convey_belt.Wire.Remlen.{read_remlen-enc_remlen}

-- `data = _recvn(sock, rem) if rem else b''`
read_body :
    (body : List ℕ) (s : List Item) (net : Net)
    → stream net.incoming ≡ bytes body s
    → (net' : Net) × ((if length body == 0 then pure [] else recvn (length body)) net
        ≡ (ok body, net'))
      × After net s net'
read_body [] s net e = (net, refl, record { left = e; outcomes = refl; sent = refl })
read_body (b ∷ bs) s net e =
    let full : (suc (length bs) == 0) ≡ false = ground arith in
    rw full (recvn-bytes (b ∷ bs) s net e)

-- The bytes of `packet kind body`.
pub packet_shape :
    (kind : ℕ) (body : List ℕ)
    → (size : List ℕ) × (enc_remlen (length body) ≡ ok size)
      × (packet kind body ≡ ok (kind ∷ size ++ body))
unfolding packet
packet_shape kind body = let (size, e) = enc_remlen-returns (length body) in (size, e, rw e)

-- A whole packet is read to its end.
pub read_frame-packet :
    (kind : ℕ) (body bs : List ℕ) (s : List Item) (net : Net)
    → packet kind body ≡ ok bs
    → length body < 128 ^ 4
    → stream net.incoming ≡ bytes bs s
    → (net' : Net) × (read_frame net ≡ (ok (bit_and kind 0xf0, body), net')) × After net s net'
unfolding read_frame
read_frame-packet kind body bs s net e h arrives =
    let (size, es, shape) = packet_shape kind body in
    let same : bs ≡ kind ∷ (size ++ body) = cc in
    let split : bytes bs s ≡ bytes (kind ∷ []) (bytes size (bytes body s)) =
      ap (λ l. bytes l s) same ∙ ap (λ l. byte kind ∷ l) (bytes-append size body s) in
    let (net₁, got₁, after₁) =
      recvn-bytes (kind ∷ []) (bytes size (bytes body s)) net (arrives ∙ split) in
    let (net₂, got₂, after₂) =
      read_remlen-enc_remlen (length body) size (bytes body s) net₁ es after₁.left h in
    let (net₃, got₃, after₃) = read_body body s net₂ after₂.left in
    (net₃, rw (got₁, got₂, got₃), After-trans after₁ (After-trans after₂ after₃))

pub packet-longer :
    (kind : ℕ) (body bs : List ℕ) → packet kind body ≡ ok bs → length body < length bs
packet-longer kind body bs e =
    let (size, _, shape) = packet_shape kind body in
    let same : bs ≡ kind ∷ (size ++ body) = cc in
    rw same (omega (arith, length-append {0} size body))

-- A silence in front of a packet.
pub read_frame-gap :
    (s : List Item) (net : Net)
    → stream net.incoming ≡ gap ∷ s
    → (net' : Net) × (read_frame net ≡ (err timeout, net')) × After net s net'
unfolding read_frame
read_frame-gap s net e =
    let (net', got, after) = recvn_fails 1 timeout s net (rw e) in (net', rw got, after)

-- The end of the connection in front of a packet.
pub read_frame-closed :
    (net : Net)
    → stream net.incoming ≡ []
    → (net' : Net) × (read_frame net ≡ (err eof_error, net')) × After net [] net'
unfolding read_frame
read_frame-closed net e =
    let (net', got, after) = recvn_fails 1 eof_error [] net (rw e) in (net', rw got, after)

-- Bytes in front of a silence are lost if more are wanted.
take_bytes-gap :
    (front : List ℕ) (n : ℕ) (s : List Item)
    → take_bytes (length front + suc n) (bytes front (gap ∷ s)) ≡ (err timeout, s)
take_bytes-gap [] n s = rw add.zero refl
take_bytes-gap (b ∷ front) n s = rw (add.suc, take_bytes-gap front n s)

pub read_frame-interrupted :
    (kind b : ℕ) (size front back : List ℕ) (s : List Item) (net : Net)
    → enc_remlen (length (front ++ b ∷ back)) ≡ ok size
    → length (front ++ b ∷ back) < 128 ^ 4
    → stream net.incoming ≡ bytes (kind ∷ size ++ front) (gap ∷ bytes (b ∷ back) s)
    → (net' : Net) × (read_frame net ≡ (err timeout, net')) × After net (bytes (b ∷ back) s) net'
unfolding read_frame
read_frame-interrupted kind b size front back s net es h arrives =
    let rest = gap ∷ bytes (b ∷ back) s in
    let split : bytes (kind ∷ size ++ front) rest
        ≡ bytes (kind ∷ []) (bytes size (bytes front rest)) =
      ap (λ l. byte kind ∷ l) (bytes-append size front rest) in
    let (net₁, got₁, after₁) =
      recvn-bytes (kind ∷ []) (bytes size (bytes front rest)) net (arrives ∙ split) in
    let (net₂, got₂, after₂) =
      read_remlen-enc_remlen (length (front ++ b ∷ back)) size (bytes front rest) net₁ es
        after₁.left h in
    let long : length (front ++ b ∷ back) ≡ length front + suc (length back) =
      length-append front (b ∷ back) in
    let (net₃, got₃, after₃) =
      recvn_fails (length (front ++ b ∷ back)) timeout (bytes (b ∷ back) s) net₂
        (rw (long, after₂.left) (take_bytes-gap front (length back) (bytes (b ∷ back) s))) in
    let full : (length (front ++ b ∷ back) == 0) ≡ false = ground (arith, long) in
    (net₃, rw (got₁, got₂, full, got₃), After-trans after₁ (After-trans after₂ after₃))
