-- ===== src/Driver/Sensors/Lost.antt =====
-- A trigger whose pulse is not answered.
use embeded_convey_belt.Prelude.{
  ℕ, ◌≡◌, ◌<◌, refl, true, false, Option, none, some, List, [], ◌∷◌, arith,
}
use embeded_convey_belt.Driver.Sensors.{
  Sensors, Parameters, sense, trigger_ultrasonic, ultra_irq_handler, Happening, sampled, triggered,
  edge, happen, happen_all,
}

-- The echo pin rises only behind a pulse that is not one of the first `old`.
abbrev pub IsAnswer : ℕ → Happening → Sensors → Type 0
IsAnswer old (sampled reading) nd = Unit
IsAnswer old triggered nd = Unit
IsAnswer old (edge true now) nd = old < nd.pulses
IsAnswer old (edge false now) nd = Unit

abbrev pub AreAnswers : Parameters → ℕ → List Happening → Sensors → Type 0
AreAnswers p old [] nd = Unit
AreAnswers p old (x ∷ xs) nd = IsAnswer old x nd × AreAnswers p old xs (happen p x nd)

abbrev IsWaiting : ℕ → Sensors → Type 0
IsWaiting old nd = (nd.pulses ≡ old) × (nd.echo_phase ≡ 1) × (nd.distance_fresh ≡ false)

happen-IsWaiting :
    (p : Parameters) (old : ℕ) (x : Happening) (nd : Sensors)
    → IsAnswer old x nd
    → IsWaiting old nd
    → IsWaiting old (happen p x nd)
unfolding sense trigger_ultrasonic ultra_irq_handler
happen-IsWaiting p old (sampled none) nd answer h = (h.0, h.1, refl)
happen-IsWaiting p old (sampled (some value)) nd answer h = (h.0, h.1, refl)
happen-IsWaiting p old triggered nd answer h = rw h.1 (h.0, refl, h.2)
happen-IsWaiting p old (edge true now) nd answer h = absurd (omega (arith, h.0, answer))
happen-IsWaiting p old (edge false now) nd answer h = rw h.1 (h.0, refl, h.2)

-- From a state whose echo phase is 1 and whose distance is not fresh, as a trigger leaves it, over any samples,
-- triggers and edges of the echo pin, in which the pin rises only in answer to a later pulse: no
-- trigger gives another pulse, the phase is still 1, and the next sample says that the distance is not
-- stable.
pub happen_all-lost :
    (p : Parameters) (old : ℕ) (xs : List Happening) (reading : Option ℕ) (nd : Sensors)
    → AreAnswers p old xs nd
    → nd.pulses ≡ old
    → nd.echo_phase ≡ 1
    → nd.distance_fresh ≡ false
    → ((happen_all p xs nd).pulses ≡ old)
      × ((happen_all p xs nd).echo_phase ≡ 1)
      × ((sense p reading (happen_all p xs nd)).0.distance_stable ≡ false)
unfolding happen_all sense
happen_all-lost p old [] reading nd answers given phase stale = (given, phase, rw stale refl)
happen_all-lost p old (x ∷ xs) reading nd answers given phase stale =
    let h = happen-IsWaiting p old x nd answers.0 (given, phase, stale) in
    happen_all-lost p old xs reading (happen p x nd) answers.1 h.0 h.1 h.2
