-- ===== src/Driver/Schedule/Seen.antt =====
-- The tilt worker's turns on their own: what they make of the tilt.
use embeded_convey_belt.Prelude.{
  ℕ, ◌≡◌, ◌∙◌, refl, sym, ap, true, false, List, [], ◌∷◌, map, Bool-cases, inl, inr, if◌then◌else◌,
}
use embeded_convey_belt.Driver.{TiltState, evaluate_state}
use embeded_convey_belt.Driver.Fusion.{same_tilt, tilt_eval_work}
use embeded_convey_belt.Driver.Schedule.{
  push, waiting, reporting, TiltPhase, Node, tilt_turn, advance, schedule,
}

-- What the tilt worker, in its phase and with the tilt it knows, makes of the tilts that the GPIO shows in its
-- turns: it looks at the GPIO in a turn that finds it waiting.
abbrev pub seen_by : TiltPhase × TiltState → List TiltState → TiltPhase × TiltState
seen_by (phase, old) [] = (phase, old)
seen_by (waiting, old) (tilt ∷ tilts) =
    let kept = seen_by (waiting, old) tilts in
    let turned = seen_by (reporting 1, tilt) tilts in if same_tilt old tilt then kept else turned
seen_by (reporting reason_flags, old) (tilt ∷ tilts) = seen_by (waiting, old) tilts

module _ (confirm_count clear_count : ℕ) where
  advance-same :
      (tilt : TiltState) (nd : Node)
      → nd.tilt_worker ≡ waiting
      → same_tilt nd.belt.tilt tilt ≡ true
      → advance confirm_count clear_count (tilt_turn tilt) nd ≡ record nd { tilt_worker = waiting }
  unfolding advance tilt_eval_work
  advance-same tilt nd e same = rw (e, same) refl

  -- The belt when the tilt worker has set a new tilt.
  abbrev turned_belt : TiltState → Node → Node
  turned_belt tilt nd = record nd {
    belt = record nd.belt { tilt = tilt; state = evaluate_state tilt nd.belt.blockage };
    tilt_worker = reporting 1;
  }

  advance-turned :
      (tilt : TiltState) (nd : Node)
      → nd.tilt_worker ≡ waiting
      → same_tilt nd.belt.tilt tilt ≡ false
      → advance confirm_count clear_count (tilt_turn tilt) nd ≡ turned_belt tilt nd
  unfolding advance tilt_eval_work
  advance-turned tilt nd e turned = rw (e, turned) refl

  advance-reporting :
      (r : ℕ) (tilt : TiltState) (nd : Node)
      → nd.tilt_worker ≡ reporting r
      → advance confirm_count clear_count (tilt_turn tilt) nd
        ≡ record (push r nd) { tilt_worker = waiting }
  unfolding advance
  advance-reporting r tilt nd e = rw e refl

  -- The fusion worker stands where it stood, and the tilt worker and the tilt are as given.
  abbrev pub Follows : Node → TiltPhase × TiltState → Node → Type 0
  Follows nd s nd' = (nd'.fusion_worker ≡ nd.fusion_worker) × ((nd'.tilt_worker, nd'.belt.tilt) ≡ s)

  keep :
      (nd : Node) (s : TiltPhase × TiltState) (tilt : TiltState) (tilts : List TiltState)
      (nd' : Node) (s' : TiltPhase × TiltState)
      → advance confirm_count clear_count (tilt_turn tilt) nd ≡ nd'
      → seen_by s (tilt ∷ tilts) ≡ s'
      → Follows nd s' (schedule confirm_count clear_count (map tilt_turn tilts) nd')
      → Follows nd
          (seen_by s (tilt ∷ tilts))
          (schedule confirm_count clear_count (map tilt_turn (tilt ∷ tilts)) nd)
  unfolding schedule
  keep nd s tilt tilts nd' s' e seen (fusion, follows) =
      let run = ap (λ n. schedule confirm_count clear_count (map tilt_turn tilts) n) e in
      (
        ap (λ n. n.fusion_worker) run ∙ fusion,
        ap (λ n. (n.tilt_worker, n.belt.tilt)) run ∙ (follows ∙ sym seen),
      )

  pub tilt_turns-seen_by :
      (phase : TiltPhase) (tilts : List TiltState) (nd : Node)
      → nd.tilt_worker ≡ phase
      → Follows nd
          (seen_by (phase, nd.belt.tilt) tilts)
          (schedule confirm_count clear_count (map tilt_turn tilts) nd)
  unfolding schedule
  tilt_turns-seen_by phase [] nd e = (refl, ap (λ w. (w, nd.belt.tilt)) e)
  tilt_turns-seen_by waiting (tilt ∷ tilts) nd e = elim (Bool-cases (same_tilt nd.belt.tilt tilt)) [
    | inl same ↦
        let seen = tilt_turns-seen_by waiting tilts (record nd { tilt_worker = waiting }) refl in
        keep nd (waiting, nd.belt.tilt) tilt tilts _ _ (advance-same tilt nd e same) (rw same refl)
          seen
    | inr turned ↦
        let seen = tilt_turns-seen_by (reporting 1) tilts (turned_belt tilt nd) refl in
        keep nd (waiting, nd.belt.tilt) tilt tilts _ _ (advance-turned tilt nd e turned)
          (rw turned refl) seen
  ]
  tilt_turns-seen_by (reporting r) (tilt ∷ tilts) nd e =
      keep nd (reporting r, nd.belt.tilt) tilt tilts _ _ (advance-reporting r tilt nd e) refl
        (tilt_turns-seen_by waiting tilts (record (push r nd) { tilt_worker = waiting }) refl)
