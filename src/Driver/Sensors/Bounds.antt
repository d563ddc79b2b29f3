-- ===== src/Driver/Sensors/Bounds.antt =====
-- The bounds of what the sensors of conveyor_node.c keep.
use embeded_convey_belt.Prelude.{
  ℕ, ◌-◌, ◌*◌, ◌/◌, ◌≤◌, ◌<◌, not, ◌&&◌, none, some, List, [], ◌∷◌, All, ltb, ◌==◌, Bool-cases, inl,
  inr, arith,
}
use embeded_convey_belt.Driver.Sensors.{
  Sensors, Parameters, average, sense, trigger_ultrasonic, measured, ultra_irq_handler, Happening,
  sampled, triggered, edge, happen, happen_all,
}

-- 39999 microseconds are 689 cm.
pub record IsBounded (most : ℕ) (nd : Sensors) : Type 0 where
  pub phase : nd.echo_phase ≤ 3
  pub distance : nd.distance_cm ≤ 689
  pub previous : nd.prev_distance_cm ≤ 689
  pub value : nd.light_value ≤ most
  pub scaled : nd.light_ema ≤ 8 * most

abbrev pub IsReading : ℕ → Happening → Type 0
IsReading most (sampled none) = Unit
IsReading most (sampled (some value)) = value ≤ most
IsReading most triggered = Unit
IsReading most (edge value now) = Unit

average-bound : (v e most : ℕ) → v ≤ most → e ≤ 8 * most → average v e ≤ 8 * most
unfolding average
average-bound v e most hv he = elim (Bool-cases (e == 0)) [
  | inl first ↦ rw first (omega arith)
  | inr later ↦ rw later (omega arith)
]

measured-IsBounded :
    (us most : ℕ) (nd : Sensors) → IsBounded most nd → IsBounded most (measured us nd)
measured-IsBounded us most nd h = elim (Bool-cases (ltb 0 us && ltb us 40000)) [
  | inl good ↦
      let short : us < 40000 = ground (arith, good) in
      rw good (record {
        phase = omega arith;
        distance = omega arith;
        previous = h.previous;
        value = h.value;
        scaled = h.scaled;
      })
  | inr bad ↦ rw bad (record {
    phase = omega arith;
    distance = h.distance;
    previous = h.previous;
    value = h.value;
    scaled = h.scaled;
  })
]

happen-IsBounded :
    (p : Parameters) (most : ℕ) (x : Happening) (nd : Sensors)
    → IsReading most x
    → IsBounded most nd
    → IsBounded most (happen p x nd)
unfolding sense trigger_ultrasonic ultra_irq_handler
happen-IsBounded p most (sampled none) nd ok h = record {
  phase = h.phase;
  distance = h.distance;
  previous = h.distance;
  value = h.value;
  scaled = h.scaled;
}
happen-IsBounded p most (sampled (some v)) nd ok h =
    let bound = average-bound v nd.light_ema most ok h.scaled in
    record {
      phase = h.phase;
      distance = h.distance;
      previous = h.distance;
      value = omega (arith, bound);
      scaled = bound;
    }
happen-IsBounded p most triggered nd ok h =
    elim (Bool-cases (not (nd.echo_phase == 0) && not (nd.echo_phase == 3))) [
      | inl busy ↦ rw busy h
      | inr free ↦ rw free (record {
        phase = omega arith;
        distance = h.distance;
        previous = h.previous;
        value = h.value;
        scaled = h.scaled;
      })
    ]
happen-IsBounded p most (edge value now) nd ok h = elim (Bool-cases (value && nd.echo_phase == 1)) [
  | inl rise ↦ rw rise (record {
    phase = omega arith;
    distance = h.distance;
    previous = h.previous;
    value = h.value;
    scaled = h.scaled;
  })
  | inr other ↦ elim (Bool-cases (not value && nd.echo_phase == 2)) [
    | inl fall ↦ rw (other, fall) (measured-IsBounded ((now - nd.echo_start) / 1000) most nd h)
    | inr none_of_it ↦ rw (other, none_of_it) h
  ]
]

-- Over any sequence of samples, triggers and edges of the echo pin, at any times, where the ADC gives at
-- most `most` or an error, from a state within the same bounds: the echo phase stays at most 3, both
-- distances at most 689 cm, the shown light at most `most`, and its average, which is scaled by 8, at
-- most 8 * most.
pub happen_all-IsBounded :
    (p : Parameters) (most : ℕ) (xs : List Happening) (nd : Sensors)
    → All (λ x. IsReading most x) xs
    → IsBounded most nd
    → IsBounded most (happen_all p xs nd)
unfolding happen_all
happen_all-IsBounded p most [] nd ok h = h
happen_all-IsBounded p most (x ∷ xs) nd ok h =
    happen_all-IsBounded p most xs (happen p x nd) ok.1 (happen-IsBounded p most x nd ok.0 h)
