-- ===== src/Driver/Sound.antt =====
-- The event that conveyor_event_daemon.py reads from a line of the driver is one that `json.loads` gives back.
use embeded_convey_belt.Prelude.{refl, All, arith}
use embeded_convey_belt.Py.{Text}
use embeded_convey_belt.Py.Utf8.{IsScalar}
use embeded_convey_belt.Py.Json.Numbers.{IsReal}
use embeded_convey_belt.Event.Loads.{IsSound}
use embeded_convey_belt.Driver.{
  ConveyorEvent, TiltState, level, tilted, BlockageState, clear, blocked, ConveyorState, running_ok,
  blockage_alert, structural_fault, critical_fault, tilt_name, blockage_name, conveyor_name,
}
use embeded_convey_belt.Driver.Line.{parsed}

tilt-IsScalar : (s : TiltState) → All IsScalar (tilt_name s)
unfolding tilt_name
tilt-IsScalar level = omega arith
tilt-IsScalar tilted = omega arith

blockage-IsScalar : (s : BlockageState) → All IsScalar (blockage_name s)
unfolding blockage_name
blockage-IsScalar clear = omega arith
blockage-IsScalar blocked = omega arith

state-IsScalar : (s : ConveyorState) → All IsScalar (conveyor_name s)
unfolding conveyor_name
state-IsScalar running_ok = omega arith
state-IsScalar blockage_alert = omega arith
state-IsScalar structural_fault = omega arith
state-IsScalar critical_fault = omega arith

pub parsed-IsSound : (now : Text) (ev : ConveyorEvent) → IsReal now → IsSound (parsed now ev)
parsed-IsSound now ev h = (
  (refl, (refl, (refl, (refl, (refl, (refl, (refl, (refl, (refl, tt))))))))),
  (
    omega arith,
    tt,
    (
      omega arith,
      state-IsScalar ev.state,
      (
        omega arith,
        tilt-IsScalar ev.tilt,
        (
          omega arith,
          blockage-IsScalar ev.blockage,
          (
            omega arith,
            tt,
            (omega arith, tt, (omega arith, tt, (omega arith, omega arith, (omega arith, h, tt)))),
          ),
        ),
      ),
    ),
  ),
)
