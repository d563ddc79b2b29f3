-- ===== src/Driver/Sensors.antt =====
-- The sensors of conveyor_node.c: the moving average of the light and the test of the distance in
-- `fusion_work_fn`, and the phases of an ultrasonic echo. Each handler runs as a whole here. Times are in
-- nanoseconds; a width below 0, which counts as none in the source, is 0. The parameters of the module are
-- not negative. The counters and the fields that only procfs shows are left out.
pub mod Bounds
pub mod Lost
mod Examples
use embeded_convey_belt.Prelude.{
  ℕ, ◌+◌, ◌-◌, ◌*◌, ◌/◌, Bool, true, false, ◌&&◌, Option, none, some, List, [], ◌∷◌, ltb, leb, ◌==◌,
  not, if◌then◌else◌,
}
use embeded_convey_belt.Driver.Fusion.{Sample}

-- `pulses` counts the pulses on the trigger pin. The distances start at 0, and only `ultra_irq_handler` sets them.
pub record Sensors : Type 0 where
  pub echo_phase : ℕ
  pub pulses : ℕ
  pub echo_start : ℕ
  pub distance_cm : ℕ
  pub prev_distance_cm : ℕ
  pub distance_fresh : Bool
  pub light_value : ℕ
  pub light_ema : ℕ

pub record Parameters : Type 0 where
  pub ultra_max_dist_cm : ℕ
  pub ultra_tolerance_cm : ℕ
  pub light_threshold : ℕ
  pub light_blocked_when_below : Bool

-- The average is scaled by 8, and starts with the first value.
unfoldable pub average : ℕ → ℕ → ℕ
average light_value light_ema =
    if light_ema == 0 then light_value * 8 else light_ema - light_ema / 8 + light_value

-- The first section under `state_lock`; `none` is an error of the ADC.
abbrev pub read_light : Option ℕ → Sensors → Option ℕ × Sensors
read_light none nd = (none, record nd { distance_fresh = false })
read_light (some value) nd =
    let light_ema = average value nd.light_ema in
    (
      some (light_ema / 8),
      record nd { distance_fresh = false; light_ema = light_ema; light_value = light_ema / 8 },
    )

-- The difference of two numbers without its sign.
abbrev pub apart : ℕ → ℕ → ℕ
apart a b = (a - b) + (b - a)

module _ (p : Parameters) where
  abbrev pub light_is_blocked : Option ℕ → Bool
  light_is_blocked none = false
  light_is_blocked (some value) =
      if p.light_blocked_when_below
      then ltb value p.light_threshold
      else ltb p.light_threshold value

  abbrev pub distance_stable : Sensors → Bool
  distance_stable nd =
      nd.distance_fresh
      && (ltb 0 nd.distance_cm
          && (ltb nd.distance_cm p.ultra_max_dist_cm
              && leb (apart nd.distance_cm nd.prev_distance_cm) p.ultra_tolerance_cm))

  -- The sample of one run of the fusion worker.
  unfoldable pub sense : Option ℕ → Sensors → Sample × Sensors
  sense reading nd =
      let (value, nd') = read_light reading nd in
      (
        record { distance_stable = distance_stable nd; light_blocked = light_is_blocked value },
        record nd' { prev_distance_cm = nd.distance_cm },
      )

-- A pulse is given only while no echo is awaited.
unfoldable pub trigger_ultrasonic : Sensors → Sensors
trigger_ultrasonic nd =
    if not (nd.echo_phase == 0) && not (nd.echo_phase == 3)
    then nd
    else record nd { echo_phase = 1; pulses = nd.pulses + 1 }

-- The end of an echo: a width above 0 and below 40 ms is a distance.
abbrev pub measured : ℕ → Sensors → Sensors
measured us nd =
    if ltb 0 us && ltb us 40000
    then record nd { echo_phase = 3; distance_cm = us / 58; distance_fresh = true }
    else record nd { echo_phase = 3 }

-- An edge of the echo pin, with the level behind it.
unfoldable pub ultra_irq_handler : Bool → ℕ → Sensors → Sensors
ultra_irq_handler value now nd =
    if value && nd.echo_phase == 1
    then record nd { echo_start = now; echo_phase = 2 }
    else if not value && nd.echo_phase == 2
    then measured ((now - nd.echo_start) / 1000) nd
    else nd

pub data Happening : Type 0 where
  sampled : Option ℕ → Happening
  triggered : Happening
  edge : Bool → ℕ → Happening

abbrev pub happen : Parameters → Happening → Sensors → Sensors
happen p (sampled reading) nd = (sense p reading nd).1
happen p triggered nd = trigger_ultrasonic nd
happen p (edge value now) nd = ultra_irq_handler value now nd

unfoldable pub happen_all : Parameters → List Happening → Sensors → Sensors
happen_all p [] nd = nd
happen_all p (h ∷ more) nd = happen_all p more (happen p h nd)
