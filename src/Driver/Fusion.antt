-- ===== src/Driver/Fusion.antt =====
-- The state that conveyor_node.c keeps of the belt: the section of `fusion_work_fn` that counts the
-- samples, `set_fused_state`, and `tilt_eval_work_fn`. What a sample makes of the sensors' numbers
-- (`distance_stable`, `light_blocked`) is given.
pub mod Debounce
use embeded_convey_belt.Prelude.{
  ℕ, ◌+◌, ◌%◌, ◌^◌, Bool, true, false, not, ◌||◌, Option, none, some, List, [], ◌∷◌, bit_or, leb,
  if◌then◌else◌,
}
use embeded_convey_belt.Driver.{
  TiltState, level, tilted, BlockageState, clear, blocked, ConveyorState, running_ok,
  blockage_alert, structural_fault, critical_fault, evaluate_state,
}

-- The streaks are of type unsigned int.
pub record Belt : Type 0 where
  pub tilt : TiltState
  pub blockage : BlockageState
  pub state : ConveyorState
  pub block_streak : ℕ
  pub clear_streak : ℕ

pub record Sample : Type 0 where
  pub distance_stable : Bool
  pub light_blocked : Bool

abbrev pub raw_blocked : Sample → Bool
raw_blocked sample = sample.distance_stable || sample.light_blocked

abbrev pub count_sample : Sample → Belt → Belt
count_sample sample nd =
    if raw_blocked sample
    then record nd { block_streak = (nd.block_streak + 1) % 2 ^ 32; clear_streak = 0 }
    else record nd { block_streak = 0; clear_streak = (nd.clear_streak + 1) % 2 ^ 32 }

abbrev pub same_blockage : BlockageState → BlockageState → Bool
same_blockage clear clear = true
same_blockage blocked blocked = true
same_blockage clear blocked = false
same_blockage blocked clear = false

abbrev pub same_tilt : TiltState → TiltState → Bool
same_tilt level level = true
same_tilt tilted tilted = true
same_tilt level tilted = false
same_tilt tilted level = false

abbrev pub same_state : ConveyorState → ConveyorState → Bool
same_state running_ok running_ok = true
same_state blockage_alert blockage_alert = true
same_state structural_fault structural_fault = true
same_state critical_fault critical_fault = true
same_state s t = false

-- REASON_LIGHT_BLOCKED and REASON_DISTANCE_STABLE
abbrev pub sample_reasons : Sample → ℕ
sample_reasons sample =
    bit_or (if sample.light_blocked then 4 else 0) (if sample.distance_stable then 8 else 0)

-- The reason flags of a pushed event; `none` if the event is suppressed.
abbrev pub push_if : Bool → ℕ → Option ℕ
push_if changed reason_flags = if changed then some reason_flags else none

unfoldable pub set_fused_state : ConveyorState → BlockageState → ℕ → Belt → Belt × Option ℕ
set_fused_state new_state new_blockage reason_flags nd =
    let turned = not (same_blockage nd.blockage new_blockage) in
    let reason_flags' = if turned then bit_or reason_flags 2 else reason_flags in
    (
      record nd { blockage = new_blockage; state = new_state },
      push_if (turned || not (same_state nd.state new_state)) reason_flags',
    )

-- REASON_TILT_CHANGED
unfoldable pub tilt_eval_work : TiltState → Belt → Belt × Option ℕ
tilt_eval_work new_tilt nd =
    if same_tilt nd.tilt new_tilt
    then (nd, none)
    else (record nd { tilt = new_tilt; state = evaluate_state new_tilt nd.blockage }, some 1)

-- `blockage_confirm_count` and `blockage_clear_count`
module _ (confirm_count clear_count : ℕ) where
  abbrev pub confirmed : Belt → BlockageState
  confirmed nd =
      if leb confirm_count nd.block_streak
      then blocked
      else if leb clear_count nd.clear_streak
      then clear
      else nd.blockage

  -- One run of the fusion worker, with no tilt change in between.
  unfoldable pub fusion_work : Sample → Belt → Belt × Option ℕ
  fusion_work sample nd =
      let counted = count_sample sample nd in
      set_fused_state (evaluate_state nd.tilt (confirmed counted)) (confirmed counted)
        (sample_reasons sample) counted

  pub data Work : Type 0 where
    fusion : Sample → Work
    tilt_eval : TiltState → Work

  abbrev pub work : Work → Belt → Belt × Option ℕ
  work (fusion sample) nd = fusion_work sample nd
  work (tilt_eval tilt) nd = tilt_eval_work tilt nd

  -- The belt at the end, and what each run of a worker pushed.
  unfoldable pub work_all : List Work → Belt → Belt × List (Option ℕ)
  work_all [] nd = (nd, [])
  work_all (w ∷ ws) nd =
      let (nd₁, pushed) = work w nd in let (nd₂, rest) = work_all ws nd₁ in (nd₂, pushed ∷ rest)
