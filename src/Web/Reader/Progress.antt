-- ===== src/Web/Reader/Progress.antt =====
-- The reading loop of `_mqtt_reader` ends on every socket.
use embeded_convey_belt.Prelude.{
  ℕ, zero, suc, ◌+◌, ◌<◌, ◌≢◌, Option, none, some, List, drop, take, arith, ◌==◌, if◌then◌else◌,
  Bool-cases, inl, inr,
}
use embeded_convey_belt.Py.{Result, ok, err, timeout, stuck, Text, text}
use embeded_convey_belt.Py.Plain.{IsPlain}
use embeded_convey_belt.Py.Json.{Fields}
use embeded_convey_belt.Py.Json.Loads.{loads}
use embeded_convey_belt.Py.Json.Total.{loads-IsPlain}
use embeded_convey_belt.Net.{Net, pure, sendall}
use embeded_convey_belt.Wire.Plain.{unpack_h-IsPlain, decode-IsPlain}
use embeded_convey_belt.Wire.Packets.{ping_request}
use embeded_convey_belt.Wire.Progress.{
  room, Leaves, Leaves-continue, lift-Leaves, sendall-Leaves, read_frame-Leaves,
}
use embeded_convey_belt.Subscriber.{handshake}
use embeded_convey_belt.Subscriber.Progress.{handshake-Leaves}
use embeded_convey_belt.Web.Reader.{
  Heard, after_ping, after_round, after_hello, handle_publish, read_event, read_events, listen,
}
use embeded_convey_belt.Web.Reader.Stamp.{event_of}
use embeded_convey_belt.Web.Reader.Delivery.{event_of-IsPlain}

after_ping-ends :
    (f : ℕ) (next : Net → Heard)
    → ((net : Net) → room net < f → (next net).ended_by ≢ stuck)
    → (out : Result (Unit {0}) × Net) → Leaves f out
    → (after_ping next out).ended_by ≢ stuck
after_ping-ends f next ends (ok a, net) h = ends net h
after_ping-ends f next ends (err stuck, net) h = absurd h
after_ping-ends f next ends (err _, net) h = λ e. cc

module _ (f : ℕ) (next : Net → Heard)
    (ends : (net : Net) → room net < f → (next net).ended_by ≢ stuck) where
  after_round-ends :
      (out : Result (Option Fields) × Net) → Leaves f out → (after_round next out).ended_by ≢ stuck
  after_round-ends (ok none, net) h = ends net h
  after_round-ends (ok (some ev), net) h = ends net h
  after_round-ends (err timeout, net) h =
      after_ping-ends f next ends (sendall ping_request net) (sendall-Leaves ping_request f net h)
  after_round-ends (err stuck, net) h = absurd h
  after_round-ends (err _, net) h = λ e. cc

module _ (local : Text → Result Text) (plain : (t : Text) → IsPlain (local t)) where
  handle_publish-Leaves :
      (now : Text) (body : List ℕ) (n : ℕ) (net : Net)
      → room net < n
      → Leaves n (handle_publish local now body net)
  unfolding handle_publish
  handle_publish-Leaves now body n net h =
      Leaves-continue n _
        (λ tlen net₁ h₁.
          Leaves-continue n _
            (λ payload net₂ h₂.
              lift-Leaves n (event_of local now (loads payload)) net₂
                (event_of-IsPlain local plain now (loads payload) (loads-IsPlain payload)) h₂)
            _ (lift-Leaves n _ net₁ (decode-IsPlain (drop (2 + tlen) body)) h₁))
        _ (lift-Leaves n _ net (unpack_h-IsPlain (take 2 body)) h)

  finish-Leaves :
      (now : Text) (frame : ℕ × List ℕ) (n : ℕ) (net : Net)
      → room net < n
      → Leaves n ((if frame.0 == 0x30 then handle_publish local now frame.1 else pure none) net)
  finish-Leaves now frame n net h = elim (Bool-cases (frame.0 == 0x30)) [
    | inl publish ↦ rw publish (handle_publish-Leaves now frame.1 n net h)
    | inr other ↦ rw other h
  ]

  read_event-Leaves :
      (now : Text) (n : ℕ) (net : Net) → room net < suc n → Leaves n (read_event local now net)
  unfolding read_event
  read_event-Leaves now n net h =
      Leaves-continue n _ (λ frame net' h'. finish-Leaves now frame n net' h') _
        (read_frame-Leaves n net h)

  read_events-ends :
      (clock : ℕ → Text) (k fuel : ℕ) (net : Net)
      → room net < fuel
      → (read_events local clock k fuel net).ended_by ≢ stuck
  unfolding read_events
  read_events-ends clock k zero net h = elim h [ ]
  read_events-ends clock k (suc fuel) net h =
      after_round-ends fuel (λ net'. read_events local clock (suc k) fuel net')
        (λ net' h'. read_events-ends clock (suc k) fuel net' h') (read_event local (clock k) net)
        (read_event-Leaves (clock k) fuel net h)

  after_hello-ends :
      (clock : ℕ → Text) (n : ℕ) (out : Result (Unit {0}) × Net)
      → Leaves n out
      → (after_hello local clock out).ended_by ≢ stuck
  after_hello-ends clock n (ok a, net) h =
      read_events-ends clock 0 (suc (room net)) net (omega arith)
  after_hello-ends clock n (err stuck, net) h = absurd h
  after_hello-ends clock n (err _, net) h = λ e. cc

  -- One connection of `_mqtt_reader` ends on every socket, by an exception that the code raises: neither
  -- the fuel of the reading loop nor that of `json.loads` runs out. The rendering of local time raises
  -- no timeout.
  pub listen-ends :
      (topic : Text) (clock : ℕ → Text) (net : Net)
      → (listen local topic clock net).ended_by ≢ stuck
  unfolding listen
  listen-ends topic clock net =
      after_hello-ends clock (suc (room net)) (handshake (text "conveyor-web") topic net)
        (handshake-Leaves (text "conveyor-web") topic (suc (room net)) net (omega arith))
