-- ===== src/Subscriber/Progress.antt =====
-- The reading loop ends on every socket: each round that goes on takes something from it.
use embeded_convey_belt.Prelude.{
  ℕ, zero, suc, ◌+◌, ◌<◌, ◌≢◌, none, some, Option, List, arith, if◌then◌else◌, ◌==◌, Bool-cases,
  inl, inr, take, drop,
}
use embeded_convey_belt.Py.{Result, ok, err, timeout, stuck, Text}
use embeded_convey_belt.Net.{Net, pure, ◌>>=◌, sendall}
use embeded_convey_belt.Wire.Plain.{
  unpack_h-IsPlain, decode-IsPlain, connect_packet-IsPlain, subscribe_packet-IsPlain,
}
use embeded_convey_belt.Wire.Packets.{ping_request}
use embeded_convey_belt.Wire.Progress.{
  room, Leaves, Leaves-continue, lift-Leaves, recvn-Leaves, sendall-Leaves, check_connack-Leaves,
  read_frame-Leaves,
}
use embeded_convey_belt.Subscriber.{
  Message, Session, read_packet, read_loop, parse_publish, after_ping, after_handshake, handshake,
  connection, after_round,
}

parse_publish-Leaves :
    (body : List ℕ) (n : ℕ) (net : Net) → room net < n → Leaves n (parse_publish body net)
unfolding parse_publish
parse_publish-Leaves body n net h =
    Leaves-continue n _
      (λ tlen net₁ h₁.
        Leaves-continue n _
          (λ t net₂ h₂.
            Leaves-continue n _ (λ p net₃ h₃. h₃) _
              (lift-Leaves n _ net₂ (decode-IsPlain (drop (2 + tlen) body)) h₂))
          _ (lift-Leaves n _ net₁ (decode-IsPlain (take tlen (drop 2 body))) h₁))
      _ (lift-Leaves n _ net (unpack_h-IsPlain (take 2 body)) h)

finish_frame-Leaves :
    (frame : ℕ × List ℕ) (n : ℕ) (net : Net)
    → room net < n
    → Leaves n
        ((if frame.0 == 0x30 then (do m ← parse_publish frame.1; pure (some m)) else pure none) net)
finish_frame-Leaves frame n net h = elim (Bool-cases (frame.0 == 0x30)) [
  | inl publish ↦
      rw publish (Leaves-continue n _ (λ m net' h'. h') _ (parse_publish-Leaves frame.1 n net h))
  | inr other ↦ rw other h
]

-- A round that goes on has taken something.
pub read_packet-Leaves : (n : ℕ) (net : Net) → room net < suc n → Leaves n (read_packet net)
unfolding read_packet
read_packet-Leaves n net h =
    Leaves-continue n _ (λ frame net' h'. finish_frame-Leaves frame n net' h') _
      (read_frame-Leaves n net h)

pub handshake-Leaves :
    (client_id topic : Text) (n : ℕ) (net : Net)
    → room net < n
    → Leaves n (handshake client_id topic net)
unfolding handshake
handshake-Leaves client_id topic n net h =
    Leaves-continue n _
      (λ hello net₁ h₁.
        Leaves-continue n _
          (λ _ net₂ h₂.
            Leaves-continue n _
              (λ ack net₃ h₃.
                Leaves-continue n _
                  (λ _ net₄ h₄.
                    Leaves-continue n _
                      (λ request net₅ h₅.
                        Leaves-continue n _
                          (λ _ net₆ h₆.
                            Leaves-continue n _ (λ _ net₇ h₇. h₇) _ (recvn-Leaves 5 n net₆ h₆))
                          _ (sendall-Leaves request n net₅ h₅))
                      _ (lift-Leaves n _ net₄ (subscribe_packet-IsPlain topic) h₄))
                  _ (check_connack-Leaves ack n net₃ h₃))
              _ (recvn-Leaves 4 n net₂ h₂))
          _ (sendall-Leaves hello n net₁ h₁))
      _ (lift-Leaves n _ net (connect_packet-IsPlain client_id) h)

after_ping-ends :
    (f : ℕ) (next : Net → Session)
    → ((net : Net) → room net < f → (next net).ended_by ≢ stuck)
    → (out : Result (Unit {0}) × Net) → Leaves f out
    → (after_ping next out).ended_by ≢ stuck
after_ping-ends f next ends (ok a, net) h = ends net h
after_ping-ends f next ends (err stuck, net) h = absurd h
after_ping-ends f next ends (err _, net) h = λ e. cc

module _ (f : ℕ) (next : Net → Session)
    (ends : (net : Net) → room net < f → (next net).ended_by ≢ stuck) where
  after_round-ends :
      (out : Result (Option Message) × Net) → Leaves f out → (after_round next out).ended_by ≢ stuck
  after_round-ends (ok none, net) h = ends net h
  after_round-ends (ok (some m), net) h = ends net h
  after_round-ends (err timeout, net) h =
      after_ping-ends f next ends (sendall ping_request net) (sendall-Leaves ping_request f net h)
  after_round-ends (err stuck, net) h = absurd h
  after_round-ends (err _, net) h = λ e. cc

read_loop-ends : (fuel : ℕ) (net : Net) → room net < fuel → (read_loop fuel net).ended_by ≢ stuck
unfolding read_loop
read_loop-ends zero net h = elim h [ ]
read_loop-ends (suc fuel) net h =
    after_round-ends fuel (λ net'. read_loop fuel net') (λ net' h'. read_loop-ends fuel net' h')
      (read_packet net) (read_packet-Leaves fuel net h)

after_handshake-ends :
    (n : ℕ) (out : Result (Unit {0}) × Net) → Leaves n out → (after_handshake out).ended_by ≢ stuck
after_handshake-ends n (ok a, net) h = read_loop-ends (suc (room net)) net (omega arith)
after_handshake-ends n (err stuck, net) h = absurd h
after_handshake-ends n (err _, net) h = λ e. cc

-- One connection of `mqtt_messages` ends on every socket, by an exception that the code raises:
-- the fuel of the model does not run out.
pub connection-ends :
    (client_id topic : Text) (net : Net) → (connection client_id topic net).ended_by ≢ stuck
unfolding connection
connection-ends client_id topic net =
    after_handshake-ends (suc (room net)) (handshake client_id topic net)
      (handshake-Leaves client_id topic (suc (room net)) net (omega arith))
