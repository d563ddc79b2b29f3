-- ===== src/Daemon/Sample.antt =====
-- One event of the driver, a topic, and a socket, on which the daemon is tried.
use embeded_convey_belt.Prelude.{refl, some, List, [], ◌∷◌, arith}
use embeded_convey_belt.Py.{text}
use embeded_convey_belt.Py.Int.{digit_char, pos, negsuc, show_nat, show_int}
use embeded_convey_belt.Py.Utf8.{encode, encode_char, decode}
use embeded_convey_belt.Py.Json.Numbers.{IsReal}
use embeded_convey_belt.Net.{Net}
use embeded_convey_belt.Wire.Names.{Fits}
use embeded_convey_belt.Event.{assign}
use embeded_convey_belt.Event.Json.{dumps, escape, unicode_escape}
use embeded_convey_belt.Driver.{
  ConveyorEvent, tilted, blocked, critical_fault, conveyor_name, tilt_name, blockage_name,
}
use embeded_convey_belt.Publisher.{MqttPublisher}
use embeded_convey_belt.Daemon.EndToEnd.{Timed, IsUsual}

abbrev pub alarm : ConveyorEvent
alarm = record {
  ts_ns = 1700;
  state = critical_fault;
  tilt = tilted;
  blockage = blocked;
  distance_cm = negsuc 0;
  light_value = pos 512;
  reason_flags = 31;
}

abbrev pub alarms : List Timed
alarms = (text "12.5", alarm) ∷ []

pub topic-Fits : Fits (text "t") (116 ∷ [])
unfolding encode encode_char decode
topic-Fits = record {
  encoded = refl;
  decoded = refl;
  are_bytes = (omega arith, tt);
  short = omega arith;
}

pub alarms-IsUsual : IsUsual (text "n1") alarms
unfolding assign dumps escape unicode_escape show_int show_nat conveyor_name tilt_name blockage_name
alarms-IsUsual = ((omega arith, (omega arith, (omega arith, (omega arith, tt)))), omega arith, tt)

abbrev pub fresh_socket : Net
fresh_socket = record { incoming = []; outcomes = []; sent = [] }

abbrev pub publisher : Net → MqttPublisher
publisher net = record { client_id = text "d"; sock = some net }

pub twelve_half-IsReal : IsReal (text "12.5")
unfolding show_nat digit_char
twelve_half-IsReal = record {
  whole = 12;
  digit = b'5';
  digits = [];
  shape = refl;
  decimals = (refl, tt);
}

pub alarms-AllReal : IsReal (text "12.5") × Unit {0}
alarms-AllReal = (twelve_half-IsReal, tt)
