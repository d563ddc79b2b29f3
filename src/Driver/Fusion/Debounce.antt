-- ===== src/Driver/Fusion/Debounce.antt =====
-- The blockage is debounced, and the state follows the tilt and the blockage.
use embeded_convey_belt.Prelude.{
  ℕ, ◌+◌, ◌%◌, ◌^◌, ◌≡◌, ◌≤◌, ◌<◌, refl, sym, ap, ◌∙◌, inl, inr, Bool, true, false, not, ◌||◌,
  Option, none, some, List, [], ◌∷◌, length, map, All, leb, if◌then◌else◌, arith, Bool-cases,
}
use embeded_convey_belt.Driver.{
  TiltState, level, tilted, BlockageState, clear, blocked, evaluate_state,
}
use embeded_convey_belt.Driver.Fusion.{
  Belt, Sample, raw_blocked, count_sample, same_blockage, same_tilt, same_state, sample_reasons,
  set_fused_state, tilt_eval_work, confirmed, fusion_work, Work, fusion, tilt_eval, work, work_all,
  push_if,
}

abbrev pub IsFused : Belt → Type 0
IsFused nd = nd.state ≡ evaluate_state nd.tilt nd.blockage

-- Something that a reader of the device should hear of.
abbrev pub has_changed : Belt → Belt → Bool
has_changed nd nd' =
    not (same_tilt nd.tilt nd'.tilt) || not (same_blockage nd.blockage nd'.blockage)

abbrev pub is_some : Option ℕ → Bool
is_some none = false
is_some (some n) = true

fused_push :
    (t : TiltState) (b b' : BlockageState)
    → (not (same_blockage b b') || not (same_state (evaluate_state t b) (evaluate_state t b')))
      ≡ not (same_blockage b b')
unfolding evaluate_state
fused_push level clear clear = refl
fused_push level clear blocked = refl
fused_push level blocked clear = refl
fused_push level blocked blocked = refl
fused_push tilted clear clear = refl
fused_push tilted clear blocked = refl
fused_push tilted blocked clear = refl
fused_push tilted blocked blocked = refl

same_tilt_refl : (t : TiltState) → same_tilt t t ≡ true
same_tilt_refl level = refl
same_tilt_refl tilted = refl

is_some-push_if : (changed : Bool) (n : ℕ) → is_some (push_if changed n) ≡ changed
is_some-push_if true n = refl
is_some-push_if false n = refl

-- `set_fused_state` behind a count that leaves tilt, blockage and state alone.
set_fused_state-IsFused :
    (nd counted : Belt) (b : BlockageState) (reason_flags : ℕ)
    → counted.tilt ≡ nd.tilt
    → counted.blockage ≡ nd.blockage
    → counted.state ≡ nd.state
    → IsFused nd
    → IsFused (set_fused_state (evaluate_state nd.tilt b) b reason_flags counted).0
      × (is_some (set_fused_state (evaluate_state nd.tilt b) b reason_flags counted).1
          ≡ has_changed nd (set_fused_state (evaluate_state nd.tilt b) b reason_flags counted).0)
unfolding set_fused_state
set_fused_state-IsFused nd counted b reason_flags et eb es h = (
  ap (λ t. evaluate_state t b) (sym et),
  is_some-push_if _ _
      ∙ rw (et, eb, es, h, same_tilt_refl nd.tilt) (fused_push nd.tilt nd.blockage b),
)

pub count_sample-keeps :
    (sample : Sample) (nd : Belt)
    → ((count_sample sample nd).tilt ≡ nd.tilt)
      × ((count_sample sample nd).blockage ≡ nd.blockage)
      × ((count_sample sample nd).state ≡ nd.state)
count_sample-keeps sample nd = elim (Bool-cases (raw_blocked sample)) [
  | inl raised ↦ rw raised (refl, refl, refl)
  | inr low ↦ rw low (refl, refl, refl)
]

same_tilt→eq : (t t' : TiltState) → same_tilt t t' ≡ true → t ≡ t'
same_tilt→eq level level h = refl
same_tilt→eq tilted tilted h = refl
same_tilt→eq level tilted h = absurd (let bad : ◌≡◌ {A = Bool} false true = h in cc)
same_tilt→eq tilted level h = absurd (let bad : ◌≡◌ {A = Bool} false true = h in cc)

same_blockage_refl : (b : BlockageState) → same_blockage b b ≡ true
same_blockage_refl clear = refl
same_blockage_refl blocked = refl

module _ (confirm_count clear_count : ℕ) where
  work-IsFused :
      (w : Work confirm_count clear_count) (nd : Belt)
      → IsFused nd
      → IsFused (work confirm_count clear_count w nd).0
        × (is_some (work confirm_count clear_count w nd).1
            ≡ has_changed nd (work confirm_count clear_count w nd).0)
  unfolding fusion_work set_fused_state tilt_eval_work
  work-IsFused (fusion sample) nd h =
      let (et, eb, es) = count_sample-keeps sample nd in
      set_fused_state-IsFused nd (count_sample sample nd)
        (confirmed confirm_count clear_count (count_sample sample nd)) (sample_reasons sample) et eb
        es h
  work-IsFused (tilt_eval t) nd h = elim (Bool-cases (same_tilt nd.tilt t)) [
    | inl same ↦ rw same (h, rw (same_tilt_refl nd.tilt, same_blockage_refl nd.blockage) refl)
    | inr turned ↦ rw turned (refl, rw turned refl)
  ]

  -- The changes of the belt over the runs.
  abbrev pub changes : List (Work confirm_count clear_count) → Belt → List Bool
  changes [] nd = []
  changes (w ∷ ws) nd =
      let nd' = (work confirm_count clear_count w nd).0 in has_changed nd nd' ∷ changes ws nd'

  -- From a belt whose state is that of its tilt and blockage, under any sequence of whole runs of the two
  -- workers: the state is so again at the end, and a run pushes an event just if it has changed the tilt
  -- or the blockage.
  pub work_all-IsFused :
      (ws : List (Work confirm_count clear_count)) (nd : Belt)
      → IsFused nd
      → IsFused (work_all confirm_count clear_count ws nd).0
        × (map is_some (work_all confirm_count clear_count ws nd).1 ≡ changes ws nd)
  unfolding work_all
  work_all-IsFused [] nd h = (h, refl)
  work_all-IsFused (w ∷ ws) nd h =
      let (fused, one) = work-IsFused w nd h in
      let (fused_at_end, rest) =
        work_all-IsFused ws (work confirm_count clear_count w nd).0 fused in
      (
        fused_at_end,
        ap
              (λ b.
                b
                ∷ map is_some
                    (work_all confirm_count clear_count ws
                      (work confirm_count clear_count w nd).0).1)
              one
            ∙ ap (λ l. has_changed nd (work confirm_count clear_count w nd).0 ∷ l) rest,
      )

  abbrev pub fusions : List Sample → List (Work confirm_count clear_count)
  fusions [] = []
  fusions (sample ∷ samples) = fusion sample ∷ fusions samples

  -- The blockage behind one blocked sample.
  confirmed_next :
      (sample : Sample) (nd : Belt) (n : ℕ)
      → raw_blocked sample ≡ true
      → nd.block_streak ≡ n
      → n + 1 < 2 ^ 32
      → nd.blockage ≡ (if leb confirm_count n then blocked else clear)
      → ((count_sample sample nd).block_streak ≡ n + 1)
        × (confirmed confirm_count clear_count (count_sample sample nd)
            ≡ (if leb confirm_count (n + 1) then blocked else clear))
  confirmed_next sample nd n r e small b =
      let next : (nd.block_streak + 1) % 2 ^ 32 ≡ n + 1 = omega (arith, e) in
      rw r (next, rw next (ground (arith, b)))

  blocked_run :
      (samples : List Sample) (nd : Belt) (n : ℕ)
      → All (λ sample. raw_blocked sample ≡ true) samples
      → nd.block_streak ≡ n
      → n + length samples < 2 ^ 32
      → nd.blockage ≡ (if leb confirm_count n then blocked else clear)
      → (work_all confirm_count clear_count (fusions samples) nd).0.blockage
        ≡ (if leb confirm_count (n + length samples) then blocked else clear)
  unfolding work_all fusion_work set_fused_state
  blocked_run [] nd n h e small b =
      b ∙ ap (λ m. if leb confirm_count m then blocked else clear) (omega arith)
  blocked_run (sample ∷ samples) nd n (r, h) e small b =
      let (streak, blockage) = confirmed_next sample nd n r e (omega arith) b in
      blocked_run samples (work confirm_count clear_count (fusion sample) nd).0 (n + 1) h streak
        (omega arith) blockage
      ∙ ap (λ m. if leb confirm_count m then blocked else clear) (omega arith)

  -- From a belt without a blockage whose last sample was not blocked, after samples that are all blocked,
  -- fewer than 2 ^ 32: the belt is blocked just if there are at least `blockage_confirm_count` of them,
  -- which is 1 or more.
  pub work_all-confirm_count :
      (samples : List Sample) (nd : Belt)
      → All (λ sample. raw_blocked sample ≡ true) samples
      → 1 ≤ confirm_count
      → nd.block_streak ≡ 0
      → length samples < 2 ^ 32
      → nd.blockage ≡ clear
      → (work_all confirm_count clear_count (fusions samples) nd).0.blockage
        ≡ (if leb confirm_count (length samples) then blocked else clear)
  work_all-confirm_count samples nd h some_count e small b =
      let none_yet : leb confirm_count 0 ≡ false = ground arith in
      blocked_run samples nd 0 h e (omega arith) (rw none_yet b)
      ∙ ap (λ m. if leb confirm_count m then blocked else clear) (omega arith)
