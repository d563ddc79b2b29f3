-- ===== src/Driver/Schedule/Race.antt =====
-- A tilt change within a run of the fusion worker.
use embeded_convey_belt.Prelude.{
  ℕ, ◌≡◌, ◌≢◌, ◌∙◌, refl, sym, ap, Bool, true, false, List, [], ◌∷◌, ◌++◌, map,
}
use embeded_convey_belt.Driver.{
  TiltState, ConveyorState, level, tilted, BlockageState, clear, blocked, evaluate_state,
}
use embeded_convey_belt.Driver.Fusion.{
  Sample, same_tilt, count_sample, confirmed, sample_reasons, set_fused_state,
}
use embeded_convey_belt.Driver.Fusion.Debounce.{IsFused, count_sample-keeps}
use embeded_convey_belt.Driver.Schedule.{
  idle, sampled, decided, Node, Turn, fusion_turn, tilt_turn, advance, schedule,
}
use embeded_convey_belt.Driver.Schedule.Seen.{seen_by, tilt_turns-seen_by}

-- The state tells the tilts apart.
evaluate_state-ne :
    (t u : TiltState) (b : BlockageState)
    → same_tilt t u ≡ false
    → evaluate_state t b ≢ evaluate_state u b
unfolding evaluate_state
evaluate_state-ne level level b h = absurd (let bad : ◌≡◌ {A = Bool} true false = h in cc)
evaluate_state-ne tilted tilted b h = absurd (let bad : ◌≡◌ {A = Bool} true false = h in cc)
evaluate_state-ne level tilted clear h = λ e. cc
evaluate_state-ne level tilted blocked h = λ e. cc
evaluate_state-ne tilted level clear h = λ e. cc
evaluate_state-ne tilted level blocked h = λ e. cc

module _ (confirm_count clear_count : ℕ) where
  schedule-append :
      (turns more : List Turn) (nd : Node)
      → schedule confirm_count clear_count (turns ++ more) nd
        ≡ schedule confirm_count clear_count more (schedule confirm_count clear_count turns nd)
  unfolding schedule
  schedule-append [] more nd = refl
  schedule-append (turn ∷ turns) more nd =
      schedule-append turns more (advance confirm_count clear_count turn nd)

  -- One run of the fusion worker up to its last lock, with turns of the tilt worker between its sections.
  abbrev pub overtaken : Sample → List TiltState → List TiltState → List Turn
  overtaken sample before after =
      fusion_turn sample
      ∷ (map tilt_turn before
          ++ fusion_turn sample ∷ (map tilt_turn after ++ fusion_turn sample ∷ []))

  -- The last two sections, each where the tilt worker has left the belt.
  last_lock :
      (sample : Sample) (new_state : ConveyorState) (new_blockage : BlockageState)
      (reason_flags : ℕ) (nd : Node)
      → nd.fusion_worker ≡ decided new_state new_blockage reason_flags
      → ((schedule confirm_count clear_count (fusion_turn sample ∷ []) nd).belt.tilt ≡ nd.belt.tilt)
        × ((schedule confirm_count clear_count (fusion_turn sample ∷ []) nd).belt.state ≡ new_state)
        × ((schedule confirm_count clear_count (fusion_turn sample ∷ []) nd).belt.blockage
            ≡ new_blockage)
  unfolding schedule advance set_fused_state
  last_lock sample new_state new_blockage reason_flags nd e = rw e (refl, refl, refl)

  advance-idle :
      (sample : Sample) (nd : Node)
      → nd.fusion_worker ≡ idle
      → advance confirm_count clear_count (fusion_turn sample) nd
        ≡ record nd { fusion_worker = sampled nd.belt.tilt }
  unfolding advance
  advance-idle sample nd e = rw e refl

  sampling :
      (sample : Sample) (old : TiltState) (nd : Node)
      → nd.fusion_worker ≡ sampled old
      → (b : BlockageState) × (r : ℕ) × ((advance confirm_count clear_count
            (fusion_turn sample)
            nd).fusion_worker
          ≡ decided (evaluate_state old b) b r)
        × ((advance confirm_count clear_count (fusion_turn sample) nd).belt.tilt ≡ nd.belt.tilt)
        × ((advance confirm_count clear_count (fusion_turn sample) nd).tilt_worker ≡ nd.tilt_worker)
  unfolding advance
  sampling sample old nd e =
      let (et, eb, es) = count_sample-keeps sample nd.belt in
      let counted = count_sample sample nd.belt in
      (
        confirmed confirm_count clear_count counted,
        sample_reasons sample,
        rw e refl,
        rw e et,
        rw e refl,
      )

  -- The run, section by section.
  overtaken-cut :
      (sample : Sample) (before after : List TiltState) (nd : Node)
      → nd.fusion_worker ≡ idle
      → schedule confirm_count clear_count (overtaken sample before after) nd
        ≡ schedule confirm_count clear_count (fusion_turn sample ∷ []) (
            schedule confirm_count clear_count (map tilt_turn after) (
              advance confirm_count clear_count (fusion_turn sample) (
                schedule confirm_count clear_count
                  (map tilt_turn before)
                  (record nd { fusion_worker = sampled nd.belt.tilt }))))
  unfolding schedule
  overtaken-cut sample before after nd phase =
      let rest = map tilt_turn after ++ fusion_turn sample ∷ [] in
      ap
        (λ n.
          schedule confirm_count clear_count (map tilt_turn before ++ fusion_turn sample ∷ rest) n)
        (advance-idle sample nd phase)
      ∙ (schedule-append (map tilt_turn before) (fusion_turn sample ∷ rest)
            (record nd { fusion_worker = sampled nd.belt.tilt })
          ∙ schedule-append (map tilt_turn after) (fusion_turn sample ∷ []) _)

  -- A whole run of the fusion worker from its reading of the tilt to its last lock, in which the tilt worker
  -- takes any turns behind the reading and any behind the decision, where the tilt that it last saw is not
  -- the one at the start: the belt then has the later tilt, with the state that `evaluate_state` gives for
  -- the tilt at the start, which is not that of the belt's own tilt and blockage. The fusion worker stood
  -- idle at the start.
  pub schedule-stale :
      (sample : Sample) (before after : List TiltState) (nd : Node)
      → nd.fusion_worker ≡ idle
      → same_tilt nd.belt.tilt (seen_by (seen_by (nd.tilt_worker, nd.belt.tilt) before) after).1
        ≡ false
      → ((schedule confirm_count clear_count (overtaken sample before after) nd).belt.tilt
          ≡ (seen_by (seen_by (nd.tilt_worker, nd.belt.tilt) before) after).1)
        × ((schedule confirm_count clear_count (overtaken sample before after) nd).belt.state
            ≡ evaluate_state nd.belt.tilt
                (schedule confirm_count clear_count
                  (overtaken sample before after)
                  nd).belt.blockage)
        × ¬ IsFused (schedule confirm_count clear_count (overtaken sample before after) nd).belt
  schedule-stale sample before after nd phase turned =
      let n₁ =
        schedule confirm_count clear_count (map tilt_turn before)
          (record nd { fusion_worker = sampled nd.belt.tilt }) in
      let n₂ = advance confirm_count clear_count (fusion_turn sample) n₁ in
      let n₃ = schedule confirm_count clear_count (map tilt_turn after) n₂ in
      let n₄ = schedule confirm_count clear_count (fusion_turn sample ∷ []) n₃ in
      let (waits₁, seen₁) =
        tilt_turns-seen_by confirm_count clear_count nd.tilt_worker before
          (record nd { fusion_worker = sampled nd.belt.tilt }) refl in
      let (b, r, decides, tilt₂, worker₂) = sampling sample nd.belt.tilt n₁ waits₁ in
      let (waits₃, seen₃) =
        tilt_turns-seen_by confirm_count clear_count n₂.tilt_worker after n₂ refl in
      let known : (n₂.tilt_worker, n₂.belt.tilt) ≡ seen_by (nd.tilt_worker, nd.belt.tilt) before =
        ap (λ w. (w, n₂.belt.tilt)) worker₂ ∙ (ap (λ t. (n₁.tilt_worker, t)) tilt₂ ∙ seen₁) in
      let (tilt₄, state₄, blockage₄) =
        last_lock sample (evaluate_state nd.belt.tilt b) b r n₃ (waits₃ ∙ decides) in
      let tilt = tilt₄ ∙ ap (λ s. s.1) (seen₃ ∙ ap (λ s. seen_by s after) known) in
      let state : n₄.belt.state ≡ evaluate_state nd.belt.tilt n₄.belt.blockage =
        state₄ ∙ ap (λ b. evaluate_state nd.belt.tilt b) (sym blockage₄) in
      rw (overtaken-cut sample before after nd phase) (
        tilt,
        state,
        λ fused.
            evaluate_state-ne nd.belt.tilt _ n₄.belt.blockage turned
              (sym state ∙ fused ∙ ap (λ t. evaluate_state t n₄.belt.blockage) tilt),
      )
