-- ===== src/Web/Reader/Refused.antt =====
-- A payload that is JSON but no object, in `_mqtt_reader`.
use embeded_convey_belt.Prelude.{
  ℕ, suc, ◌≡◌, ◌≢◌, ◌∙◌, refl, ap, Option, none, some, List, [], ◌∷◌, ◌++◌, All, length,
}
use embeded_convey_belt.Py.{Result, ok, err, attribute_error, Text, text}
use embeded_convey_belt.Py.Plain.{IsPlain}
use embeded_convey_belt.Py.Json.{Json, null, bool, num, real, str, arr, obj, Fields, dumps_json}
use embeded_convey_belt.Py.Json.Loads.{loads}
use embeded_convey_belt.Py.Json.Printed.{IsValid}
use embeded_convey_belt.Py.Json.RoundTrip.{loads-dumps}
use embeded_convey_belt.Net.{Net}
use embeded_convey_belt.Net.Stream.{bytes, stream}
use embeded_convey_belt.Wire.Packets.{connect_packet, subscribe_packet}
use embeded_convey_belt.Subscriber.Delivery.{Traffic, published, pong, quiet, IsWhole, wire}
use embeded_convey_belt.Web.Reader.{listen}
use embeded_convey_belt.Web.Reader.Stamp.{stamp, event_of}
use embeded_convey_belt.Web.Reader.Delivery.{hears, listen-hears}

-- No payload of this traffic raises.
abbrev pub AllTaken : (Text → Result Text) → (ℕ → Text) → ℕ → List Traffic → Type 0
AllTaken local clock k [] = Unit
AllTaken local clock k (published t p bs ∷ ts) =
    ((o : Option Fields) × (event_of local (clock k) (loads p) ≡ ok o))
    × AllTaken local clock (suc k) ts
AllTaken local clock k (pong ∷ ts) = AllTaken local clock (suc k) ts
AllTaken local clock k (quiet ∷ ts) = AllTaken local clock (suc k) ts

stamp-no_object :
    (local : Text → Result Text) (now : Text) (v : Json)
    → ((fs : Fields) → v ≢ obj fs)
    → stamp local now v ≡ err attribute_error
stamp-no_object local now (obj fs) h = absurd (h fs refl)
stamp-no_object local now null h = refl
stamp-no_object local now (bool b) h = refl
stamp-no_object local now (num z) h = refl
stamp-no_object local now (real r) h = refl
stamp-no_object local now (str s) h = refl
stamp-no_object local now (arr xs) h = refl

module _ (local : Text → Result Text) (clock : ℕ → Text) (t p : Text) (bs : List ℕ)
    (after : List Traffic)
    (raises : (now : Text) → event_of local now (loads p) ≡ err attribute_error) where
  hears-raises :
      (k : ℕ) (before : List Traffic)
      → AllTaken local clock k before
      → ((hears local clock k (before ++ published t p bs ∷ after)).events
          ≡ (hears local clock k before).events)
        × ((hears local clock k (before ++ published t p bs ∷ after)).ended_by ≡ attribute_error)
  hears-raises k [] h = rw (raises (clock k)) (refl, refl)
  hears-raises k (published u q cs ∷ ts) ((none, got), h) = rw got (hears-raises (suc k) ts h)
  hears-raises k (published u q cs ∷ ts) ((some ev, got), h) =
      let (same, ended) = hears-raises (suc k) ts h in rw got (ap (λ l. ev ∷ l) same, ended)
  hears-raises k (pong ∷ ts) h = hears-raises (suc k) ts h
  hears-raises k (quiet ∷ ts) h = hears-raises (suc k) ts h

-- A message whose payload is the JSON of a value that is no object, behind traffic whose payloads do not
-- raise: it ends the connection with an AttributeError, so that the events in front of it are taken and
-- all traffic behind it on this connection is lost, under the conditions of an accepted connection of
-- whole packets (PUBLISH with no flags and text that has an encoding, and PINGRESP) on a socket that
-- accepts all.
pub listen-no_object :
    (local : Text → Result Text) (clock : ℕ → Text) (topic : Text) (hello request suback : List ℕ)
    (x y : ℕ) (before after : List Traffic) (t : Text) (v : Json) (bs : List ℕ) (net : Net)
    → ((s : Text) → IsPlain (local s))
    → connect_packet (text "conveyor-web") ≡ ok hello
    → subscribe_packet topic ≡ ok request
    → length suback ≡ 5
    → net.outcomes ≡ []
    → All IsWhole (before ++ published t (dumps_json v) bs ∷ after)
    → stream net.incoming
      ≡ bytes
          (0x20 ∷ x ∷ y ∷ 0 ∷ suback)
          (wire (before ++ published t (dumps_json v) bs ∷ after) [])
    → AllTaken local clock 0 before
    → IsValid v
    → ((fs : Fields) → v ≢ obj fs)
    → ((listen local topic clock net).events ≡ (hears local clock 0 before).events)
      × ((listen local topic clock net).ended_by ≡ attribute_error)
listen-no_object local clock topic hello request suback x y before after t v bs net plain eh er size
      accepting whole arrives taken valid other =
    let ts = before ++ published t (dumps_json v) bs ∷ after in
    let (events, ended, written) =
      listen-hears local plain clock topic hello request suback x y ts net eh er size accepting
        whole arrives in
    let raises : (now : Text) → event_of local now (loads (dumps_json v)) ≡ err attribute_error =
      λ now. rw (loads-dumps v valid) (stamp-no_object local now v other) in
    let (same, by) = hears-raises local clock t (dumps_json v) bs after raises 0 before taken in
    (events ∙ same, ended ∙ by)
