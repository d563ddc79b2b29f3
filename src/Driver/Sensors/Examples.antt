-- ===== src/Driver/Sensors/Examples.antt =====
-- Echoes and samples of the light at concrete values.
use embeded_convey_belt.Prelude.{true, false, ◌≡◌, refl, none, some, List, [], ◌∷◌, ◌++◌, arith}
use embeded_convey_belt.Driver.Sensors.{
  Sensors, Parameters, average, sense, trigger_ultrasonic, ultra_irq_handler, Happening, sampled,
  triggered, edge, happen_all,
}
use embeded_convey_belt.Driver.Sensors.Bounds.{IsBounded, happen_all-IsBounded}
use embeded_convey_belt.Driver.Sensors.Lost.{happen_all-lost}

-- The values that the module starts with.
abbrev given : Parameters
given = record {
  ultra_max_dist_cm = 50;
  ultra_tolerance_cm = 2;
  light_threshold = 1800;
  light_blocked_when_below = true;
}

abbrev probed : Sensors
probed = record {
  echo_phase = 3;
  pulses = 0;
  echo_start = 0;
  distance_cm = 0;
  prev_distance_cm = 0;
  distance_fresh = false;
  light_value = 0;
  light_ema = 0;
}

-- An echo of 600 microseconds, and samples behind it.
abbrev heard : List Happening
heard =
    triggered
    ∷ edge true 1000
    ∷ edge false 601000
    ∷ sampled (some 4095)
    ∷ sampled none
    ∷ sampled (some 100)
    ∷ []

heard_test : (happen_all given heard probed).distance_cm ≡ 10
unfolding happen_all sense trigger_ultrasonic ultra_irq_handler average
heard_test = refl

happen_all-IsBounded_example : IsBounded 4095 (happen_all given heard probed)
happen_all-IsBounded_example =
    happen_all-IsBounded given 4095 heard probed
      (tt, (tt, (tt, (omega arith, (tt, (omega arith, tt))))))
      (record {
        phase = omega arith;
        distance = omega arith;
        previous = omega arith;
        value = omega arith;
        scaled = omega arith;
      })

-- The state behind the first trigger.
abbrev pulsed : Sensors
pulsed = record probed { echo_phase = 1; pulses = 1 }

abbrev unheard : List Happening
unheard = sampled (some 2000) ∷ triggered ∷ edge false 9000 ∷ triggered ∷ []

happen_all-lost_example :
    ((happen_all given unheard pulsed).pulses ≡ 1)
    × ((happen_all given unheard pulsed).echo_phase ≡ 1)
    × ((sense given (some 2000) (happen_all given unheard pulsed)).0.distance_stable ≡ false)
happen_all-lost_example =
    happen_all-lost given 1 unheard (some 2000) pulsed (tt, (tt, (tt, (tt, tt)))) refl refl refl

-- A trigger behind a whole echo gives a second pulse.
pulses_test : (happen_all given (heard ++ triggered ∷ []) probed).pulses ≡ 2
unfolding happen_all sense trigger_ultrasonic ultra_irq_handler average
pulses_test = refl
