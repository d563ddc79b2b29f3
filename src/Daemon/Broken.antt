-- ===== src/Daemon/Broken.antt =====
-- The lines of the device once the broker's connection is broken.
use embeded_convey_belt.Prelude.{ℕ, ◌≡◌, refl, sym, ap, none, some, Option, List, [], ◌∷◌, map}
use embeded_convey_belt.Py.{Text, os_error}
use embeded_convey_belt.Net.{Net}
use embeded_convey_belt.Wire.Names.{Fits}
use embeded_convey_belt.Driver.{format_event}
use embeded_convey_belt.Driver.Line.{parsed, parse_event-format_event}
use embeded_convey_belt.Publisher.{MqttPublisher}
use embeded_convey_belt.Daemon.{line_error, payload_of, read_lines}
use embeded_convey_belt.Daemon.Lines.{publish_packet-returns, handle_line-broken}
use embeded_convey_belt.Daemon.EndToEnd.{Timed, readings, IsUsual, payload-IsPrintable}

-- One failed call of `sendall` for each event.
abbrev pub failures : List Timed → List (Option ℕ)
failures [] = []
failures (_ ∷ evs) = some 0 ∷ failures evs

module _ (topic node_id : Text) (name : List ℕ) (fits : Fits topic name) where
  -- On a socket each of whose writes fails at once, the loop over the lines of the driver does not
  -- stop: each line is lost with an OSError on stderr, no byte goes out, no exception leaves the loop,
  -- and the publisher still holds the same socket at the end. The times are printable, each payload is
  -- below 2 ^ 27 characters, and the topic has an encoding that fits its length field.
  pub read_lines-broken :
      (evs : List Timed) (net : Net) (self : MqttPublisher)
      → IsUsual node_id evs
      → self.sock ≡ some net
      → net.outcomes ≡ failures evs
      → read_lines topic node_id (readings evs) self ≡ (
        map (λ _. line_error os_error) evs,
        none,
        record self { sock = some (record net { outcomes = [] }) },
      )
  unfolding read_lines
  read_lines-broken [] net self h there broken =
      let same : some (record net { outcomes = [] }) ≡ self.sock = cc in
      ap (λ o. ([], none, record self { sock = o })) (sym same)
  read_lines-broken ((now, ev) ∷ evs) net self (clean, small, h) there broken =
      let printable = payload-IsPrintable node_id now ev clean in
      let (pkt, packed, short) =
        publish_packet-returns topic (payload_of node_id (parsed now ev)) name fits printable
          small in
      let net' : Net = record net { outcomes = failures evs } in
      let rest = read_lines-broken evs net' (record self { sock = some net' }) h refl refl in
      rw
        (handle_line-broken topic node_id now (format_event ev) (parsed now ev) pkt net
          (failures evs) self (parse_event-format_event now ev) packed there broken)
        (rw rest refl)
