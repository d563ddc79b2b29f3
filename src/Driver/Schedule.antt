-- ===== src/Driver/Schedule.antt =====
-- The two workers of conveyor_node.c side by side: `fusion_work_fn` and `tilt_eval_work_fn`, cut where
-- they let go of `state_lock`. A work item does not run twice at once, but the two run on different
-- processors, so that their sections come in any order.
pub mod Timely
pub mod Seen
pub mod Race
use embeded_convey_belt.Prelude.{ℕ, Option, none, some, List, [], ◌∷◌}
use embeded_convey_belt.Driver.{TiltState, BlockageState, ConveyorState, evaluate_state}
use embeded_convey_belt.Driver.Fusion.{
  Belt, Sample, count_sample, sample_reasons, set_fused_state, tilt_eval_work, confirmed,
}

-- Where the fusion worker stands: it has read the tilt; it has counted the sample and decided; or it is
-- about to push an event.
pub data FusionPhase : Type 0 where
  idle : FusionPhase
  sampled : TiltState → FusionPhase
  decided : ConveyorState → BlockageState → ℕ → FusionPhase
  pushing : ℕ → FusionPhase

pub data TiltPhase : Type 0 where
  waiting : TiltPhase
  reporting : ℕ → TiltPhase

-- What `push_event` takes from the belt, with the reason flags.
pub record Report : Type 0 where
  pub state : ConveyorState
  pub tilt : TiltState
  pub blockage : BlockageState
  pub reason_flags : ℕ

-- `reports` are the pushed events, the newest first.
pub record Node : Type 0 where
  pub belt : Belt
  pub fusion_worker : FusionPhase
  pub tilt_worker : TiltPhase
  pub reports : List Report

abbrev pub push : ℕ → Node → Node
push reason_flags nd = record nd {
  reports =
      record {
        state = nd.belt.state;
        tilt = nd.belt.tilt;
        blockage = nd.belt.blockage;
        reason_flags = reason_flags;
      }
      ∷ nd.reports;
}

abbrev pub fusion_then : Option ℕ → FusionPhase
fusion_then none = idle
fusion_then (some reason_flags) = pushing reason_flags

abbrev pub tilt_then : Option ℕ → TiltPhase
tilt_then none = waiting
tilt_then (some reason_flags) = reporting reason_flags

-- The next section of a worker. The sample, or the tilt that the GPIO shows, counts in the section that
-- uses it.
pub data Turn : Type 0 where
  fusion_turn : Sample → Turn
  tilt_turn : TiltState → Turn

-- `blockage_confirm_count` and `blockage_clear_count`
module _ (confirm_count clear_count : ℕ) where
  abbrev pub fusion_section : Sample → FusionPhase → Node → Node
  fusion_section sample idle nd = record nd { fusion_worker = sampled nd.belt.tilt }
  fusion_section sample (sampled tilt) nd =
      let counted = count_sample sample nd.belt in
      let new_blockage = confirmed confirm_count clear_count counted in
      record nd {
        belt = counted;
        fusion_worker =
            decided (evaluate_state tilt new_blockage) new_blockage (sample_reasons sample);
      }
  fusion_section sample (decided new_state new_blockage reason_flags) nd =
      let (belt, pushed) = set_fused_state new_state new_blockage reason_flags nd.belt in
      record nd { belt = belt; fusion_worker = fusion_then pushed }
  fusion_section sample (pushing reason_flags) nd = record (push reason_flags nd) {
    fusion_worker = idle;
  }

  abbrev pub tilt_section : TiltState → TiltPhase → Node → Node
  tilt_section tilt waiting nd =
      let (belt, pushed) = tilt_eval_work tilt nd.belt in
      record nd { belt = belt; tilt_worker = tilt_then pushed }
  tilt_section tilt (reporting reason_flags) nd = record (push reason_flags nd) {
    tilt_worker = waiting;
  }

  unfoldable pub advance : Turn → Node → Node
  advance (fusion_turn sample) nd = fusion_section sample nd.fusion_worker nd
  advance (tilt_turn tilt) nd = tilt_section tilt nd.tilt_worker nd

  unfoldable pub schedule : List Turn → Node → Node
  schedule [] nd = nd
  schedule (turn ∷ turns) nd = schedule turns (advance turn nd)
