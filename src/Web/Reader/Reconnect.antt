-- ===== src/Web/Reader/Reconnect.antt =====
-- `_mqtt_reader` over several connections.
use embeded_convey_belt.Prelude.{ℕ, ◌≡◌, refl, ap, List, [], ◌∷◌, ◌++◌, map, All}
use embeded_convey_belt.Py.{Result, ok, os_error, Text, text}
use embeded_convey_belt.Py.Plain.{IsPlain}
use embeded_convey_belt.Net.{Attempt, refused, connected}
use embeded_convey_belt.Wire.Packets.{connect_packet, subscribe_packet}
use embeded_convey_belt.Subscriber.Reconnect.{Visit, turned_away, accepted, IsCalm}
use embeded_convey_belt.Web.Reader.{Did, acts, mqtt_error, handle_events, mqtt_reader}
use embeded_convey_belt.Web.Reader.Delivery.{Outcome, hears, listen-hears}

abbrev pub TimedVisit : Type 0
TimedVisit = Visit × (ℕ → Text)

abbrev pub calls : List TimedVisit → List (Attempt × (ℕ → Text))
calls [] = []
calls ((turned_away, clock) ∷ vs) = (refused, clock) ∷ calls vs
calls ((accepted x y suback ts net, clock) ∷ vs) = (connected net, clock) ∷ calls vs

-- What each attempt comes to.
abbrev pub outcome_of : Outcome → List Did
outcome_of o = map acts (handle_events o.events) ++ mqtt_error o.ended_by ∷ []

abbrev pub does : (Text → Result Text) → List TimedVisit → List Did
does local [] = []
does local ((turned_away, clock) ∷ vs) = mqtt_error os_error ∷ does local vs
does local ((accepted x y suback ts net, clock) ∷ vs) =
    outcome_of (hears local clock 0 ts) ++ does local vs

module _ (local : Text → Result Text) (plain : (t : Text) → IsPlain (local t)) (topic : Text)
    (hello request : List ℕ) (eh : connect_packet (text "conveyor-web") ≡ ok hello)
    (er : subscribe_packet topic ≡ ok request) where
  -- Over any sequence of connection attempts, some refused and some accepted by a broker that sends whole
  -- packets (PUBLISH with no flags and text that has an encoding, and PINGRESP), with silences between them, up to the end of the connection, on sockets that accept all that
  -- is written: the reader never stops. It stores and broadcasts the events of each connection in order, up
  -- to a payload that raises, prints one error for each connection and each refusal, and connects again.
  -- The rendering of local time raises no timeout.
  pub mqtt_reader-does :
      (vs : List TimedVisit)
      → All (λ v. IsCalm v.0) vs
      → mqtt_reader local topic (calls vs) ≡ does local vs
  unfolding mqtt_reader
  mqtt_reader-does [] h = refl
  mqtt_reader-does ((turned_away, clock) ∷ vs) h =
      ap (λ l. mqtt_error os_error ∷ l) (mqtt_reader-does vs h.1)
  mqtt_reader-does ((accepted x y suback ts net, clock) ∷ vs)
        ((size, accepting, whole, arrives), h) =
      let (hears_all, ended, sent) =
        listen-hears local plain clock topic hello request suback x y ts net eh er size accepting
          whole arrives in
      rw (hears_all, ended, mqtt_reader-does vs h) refl
