-- ===== src/Driver/Schedule/Timely.antt =====
-- The workers when no tilt change falls into a run of the fusion worker.
use embeded_convey_belt.Prelude.{
  ℕ, ◌≡◌, ◌∙◌, refl, sym, ap, Option, none, some, Bool, true, false, List, [], ◌∷◌, All, Bool-cases,
  inl, inr,
}
use embeded_convey_belt.Driver.{TiltState, evaluate_state}
use embeded_convey_belt.Driver.Fusion.{
  Belt, Sample, count_sample, same_tilt, set_fused_state, tilt_eval_work, confirmed,
}
use embeded_convey_belt.Driver.Fusion.Debounce.{IsFused, count_sample-keeps}
use embeded_convey_belt.Driver.Schedule.{
  FusionPhase, idle, sampled, decided, pushing, TiltPhase, waiting, reporting, Report, Node,
  fusion_then, fusion_section, tilt_section, Turn, fusion_turn, tilt_turn, advance, schedule,
}

-- What the fusion worker holds still fits the belt.
abbrev pub IsCurrent : FusionPhase → Belt → Type 0
IsCurrent idle nd = Unit
IsCurrent (sampled tilt) nd = tilt ≡ nd.tilt
IsCurrent (decided new_state new_blockage reason_flags) nd =
    new_state ≡ evaluate_state nd.tilt new_blockage
IsCurrent (pushing reason_flags) nd = Unit

abbrev pub IsTrue : Report → Type 0
IsTrue r = r.state ≡ evaluate_state r.tilt r.blockage

pub record IsSteady (nd : Node) : Type 0 where
  pub fused : IsFused nd.belt
  pub current : IsCurrent nd.fusion_worker nd.belt
  pub reported : All IsTrue nd.reports

-- The tilt does not turn while the fusion worker is between its first lock and its last.
abbrev pub IsUnturned : TiltState → TiltPhase → FusionPhase → Belt → Type 0
IsUnturned tilt waiting (sampled t) nd = same_tilt nd.tilt tilt ≡ true
IsUnturned tilt waiting (decided s b r) nd = same_tilt nd.tilt tilt ≡ true
IsUnturned tilt phase worker nd = Unit

abbrev pub IsTimelyTurn : Turn → Node → Type 0
IsTimelyTurn (fusion_turn sample) nd = Unit
IsTimelyTurn (tilt_turn tilt) nd = IsUnturned tilt nd.tilt_worker nd.fusion_worker nd.belt

fusion_then-IsCurrent : (pushed : Option ℕ) (nd : Belt) → IsCurrent (fusion_then pushed) nd
fusion_then-IsCurrent none nd = tt
fusion_then-IsCurrent (some reason_flags) nd = tt

kept-IsCurrent :
    (tilt : TiltState) (worker : FusionPhase) (nd nd' : Belt)
    → IsUnturned tilt waiting worker nd
    → same_tilt nd.tilt tilt ≡ false
    → IsCurrent worker nd'
kept-IsCurrent tilt idle nd nd' now turned = tt
kept-IsCurrent tilt (sampled t) nd nd' now turned =
    absurd (let bad : ◌≡◌ {A = Bool} true false = sym now ∙ turned in cc)
kept-IsCurrent tilt (decided s b r) nd nd' now turned =
    absurd (let bad : ◌≡◌ {A = Bool} true false = sym now ∙ turned in cc)
kept-IsCurrent tilt (pushing r) nd nd' now turned = tt

module _ (confirm_count clear_count : ℕ) where
  fusion_section-IsSteady :
      (sample : Sample) (phase : FusionPhase) (nd : Node)
      → IsFused nd.belt
      → IsCurrent phase nd.belt
      → All IsTrue nd.reports
      → IsSteady (fusion_section confirm_count clear_count sample phase nd)
  unfolding set_fused_state
  fusion_section-IsSteady sample idle nd f c r = record { fused = f; current = refl; reported = r }
  fusion_section-IsSteady sample (sampled tilt) nd f c r =
      let counted = count_sample sample nd.belt in
      let (et, eb, es) = count_sample-keeps sample nd.belt in
      record {
        fused =
            es
            ∙ f
            ∙ ap (λ t. evaluate_state t nd.belt.blockage) (sym et)
            ∙ ap (evaluate_state counted.tilt) (sym eb);
        current =
            ap (λ t. evaluate_state t (confirmed confirm_count clear_count counted)) (c ∙ sym et);
        reported = r;
      }
  fusion_section-IsSteady sample (decided s b flags) nd f c r = record {
    fused = c;
    current = fusion_then-IsCurrent _ _;
    reported = r;
  }
  fusion_section-IsSteady sample (pushing flags) nd f c r = record {
    fused = f;
    current = tt;
    reported = (f, r);
  }

  tilt_section-IsSteady :
      (tilt : TiltState) (phase : TiltPhase) (nd : Node)
      → IsUnturned tilt phase nd.fusion_worker nd.belt
      → IsSteady nd
      → IsSteady (tilt_section confirm_count clear_count tilt phase nd)
  unfolding tilt_eval_work
  tilt_section-IsSteady tilt waiting nd now h = elim (Bool-cases (same_tilt nd.belt.tilt tilt)) [
    | inl same ↦ record {
      fused = rw same (h.fused);
      current = rw same (h.current);
      reported = h.reported;
    }
    | inr turned ↦ record {
      fused = rw turned refl;
      current = kept-IsCurrent tilt nd.fusion_worker nd.belt _ now turned;
      reported = h.reported;
    }
  ]
  tilt_section-IsSteady tilt (reporting flags) nd now h = record {
    fused = h.fused;
    current = h.current;
    reported = (h.fused, h.reported);
  }

  advance-IsSteady :
      (turn : Turn) (nd : Node)
      → IsTimelyTurn turn nd
      → IsSteady nd
      → IsSteady (advance confirm_count clear_count turn nd)
  unfolding advance
  advance-IsSteady (fusion_turn sample) nd now h =
      fusion_section-IsSteady sample nd.fusion_worker nd h.fused h.current h.reported
  advance-IsSteady (tilt_turn tilt) nd now h = tilt_section-IsSteady tilt nd.tilt_worker nd now h

  abbrev pub IsTimely : List Turn → Node → Type 0
  IsTimely [] nd = Unit
  IsTimely (turn ∷ turns) nd =
      IsTimelyTurn turn nd × IsTimely turns (advance confirm_count clear_count turn nd)

  -- The sections of the two workers in any order, where no tilt change falls between the fusion worker's
  -- reading of the tilt and its last lock: the state keeps following the tilt and the blockage, and so does
  -- the state of every event that is pushed. At the start the state follows them, what the fusion worker
  -- holds fits the belt, and the earlier events are of this kind.
  pub schedule-IsSteady :
      (turns : List Turn) (nd : Node)
      → IsSteady nd
      → IsTimely turns nd
      → IsFused (schedule confirm_count clear_count turns nd).belt
        × All IsTrue (schedule confirm_count clear_count turns nd).reports
  unfolding schedule
  schedule-IsSteady [] nd h timely = (h.fused, h.reported)
  schedule-IsSteady (turn ∷ turns) nd h timely =
      schedule-IsSteady turns (advance confirm_count clear_count turn nd)
        (advance-IsSteady turn nd timely.0 h) timely.1
