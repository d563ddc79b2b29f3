-- ===== src/Driver.antt =====
-- conveyor_node.c, as far as the user-space programs see it: the states, their fusion, and the line
-- that `node_read` writes for one event.
pub mod Line
pub mod Sound
pub mod Queue
pub mod Fusion
pub mod Schedule
pub mod Sensors
mod Examples
use embeded_convey_belt.Prelude.{ℕ, List, [], ◌∷◌, ◌++◌}
use embeded_convey_belt.Py.{Text, text}
use embeded_convey_belt.Py.Int.{ℤ, show_nat, show_int}

pub data TiltState : Type 0 where
  level tilted : TiltState

pub data BlockageState : Type 0 where
  clear blocked : BlockageState

pub data ConveyorState : Type 0 where
  running_ok blockage_alert structural_fault critical_fault : ConveyorState

-- `ts_ns` is a u64, `reason_flags` a u32; `distance_cm` and `light_value` are of type int.
pub record ConveyorEvent : Type 0 where
  pub ts_ns : ℕ
  pub state : ConveyorState
  pub tilt : TiltState
  pub blockage : BlockageState
  pub distance_cm : ℤ
  pub light_value : ℤ
  pub reason_flags : ℕ

unfoldable pub evaluate_state : TiltState → BlockageState → ConveyorState
evaluate_state level clear = running_ok
evaluate_state level blocked = blockage_alert
evaluate_state tilted clear = structural_fault
evaluate_state tilted blocked = critical_fault

unfoldable pub tilt_name : TiltState → Text
tilt_name tilted = text "TILTED"
tilt_name level = text "LEVEL"

unfoldable pub blockage_name : BlockageState → Text
blockage_name blocked = text "BLOCKED"
blockage_name clear = text "CLEAR"

unfoldable pub conveyor_name : ConveyorState → Text
conveyor_name running_ok = text "RUNNING_OK"
conveyor_name blockage_alert = text "BLOCKAGE_ALERT"
conveyor_name structural_fault = text "STRUCTURAL_FAULT"
conveyor_name critical_fault = text "CRITICAL_FAULT"

-- The format string of `node_read`. The longest line has fewer than the 192 bytes of its buffer.
unfoldable pub format_event : ConveyorEvent → Text
format_event ev =
    text "ts="
    ++ (show_nat 10 ev.ts_ns
        ++ (text " state="
            ++ (conveyor_name ev.state
                ++ (text " tilt="
                    ++ (tilt_name ev.tilt
                        ++ (text " blockage="
                            ++ (blockage_name ev.blockage
                                ++ (text " distance_cm="
                                    ++ (show_int ev.distance_cm
                                        ++ (text " light="
                                            ++ (show_int ev.light_value
                                                ++ (text " reason=0x"
                                                    ++ (show_nat 16 ev.reason_flags
                                                        ++ text "\n")))))))))))))
