-- ===== src/Driver/Examples.antt =====
-- A line of the driver, and a line by hand, at concrete values.
use embeded_convey_belt.Prelude.{true, false, ◌≡◌, refl, List, [], ◌∷◌, ◌++◌, map, All, arith}
use embeded_convey_belt.Py.{ok, err, value_error, text}
use embeded_convey_belt.Py.Str.{is_space, strip}
use embeded_convey_belt.Py.Str.Words.{line, IsToken, IsWord-by_check}
use embeded_convey_belt.Py.Int.{pos, negsuc, parse_int, unsigned, digit_value}
use embeded_convey_belt.Event.{num, str, real, assign, parse_event}
use embeded_convey_belt.Event.Fields.{
  Field, integer, hex, word, token, assign_all, IsGood, parse_event-line, parse_event-no_equals,
}
use embeded_convey_belt.Driver.{
  level, clear, running_ok, evaluate_state, ConveyorEvent, tilted, blocked, critical_fault,
  format_event,
}
use embeded_convey_belt.Driver.Fusion.{Belt, Sample, fusion, tilt_eval, work_all}
use embeded_convey_belt.Driver.Fusion.Debounce.{
  IsFused, is_some, changes, fusions, work_all-IsFused, work_all-confirm_count,
}
use embeded_convey_belt.Driver.Fusion.{set_fused_state, tilt_eval_work}
use embeded_convey_belt.Driver.Schedule.{
  Node, idle, waiting, Turn, fusion_turn, tilt_turn, advance, schedule,
}
use embeded_convey_belt.Driver.Schedule.Timely.{IsTrue, IsSteady, schedule-IsSteady}
use embeded_convey_belt.Driver.Schedule.Race.{overtaken, schedule-stale}
use embeded_convey_belt.Driver.Queue.{Ring, Use, pushed, reads, use_all}
use embeded_convey_belt.Driver.Queue.Refinement.{IsQueue, queue_all, use_all-queue_all}
use embeded_convey_belt.Driver.Line.{parsed, parse_event-format_event}

abbrev alarm : ConveyorEvent
alarm = record {
  ts_ns = 1700;
  state = critical_fault;
  tilt = tilted;
  blockage = blocked;
  distance_cm = negsuc 0;
  light_value = pos 512;
  reason_flags = 31;
}

parse_event-format_event_example :
    parse_event (text "12.5") (format_event alarm) ≡ ok (parsed (text "12.5") alarm)
parse_event-format_event_example = parse_event-format_event (text "12.5") alarm

-- ts=7 tilt=UP ts=8
abbrev by_hand : List Field
by_hand =
    record { key = text "ts"; content = integer (pos 7) }
    ∷ record { key = text "tilt"; content = word (text "UP") }
    ∷ record { key = text "ts"; content = hex 8 }
    ∷ []

by_hand-IsGood : All IsGood by_hand
unfolding is_space parse_int strip unsigned digit_value
by_hand-IsGood = (
  record { key_word = IsWord-by_check (text "ts") refl; no_equals = refl; readable = tt },
  (
    record {
      key_word = IsWord-by_check (text "tilt") refl;
      no_equals = refl;
      readable = (IsWord-by_check (text "UP") refl, refl, refl);
    },
    (record { key_word = IsWord-by_check (text "ts") refl; no_equals = refl; readable = tt }, tt),
  ),
)

parse_event-line_example :
    parse_event (text "9") (line (map token by_hand))
    ≡ ok (
        assign
          (text "created_at")
          (real (text "9"))
          (assign (text "source") (str (text "conveyor_node")) (assign_all by_hand [])))
parse_event-line_example = parse_event-line (text "9") by_hand by_hand-IsGood

by_hand_test :
    assign_all by_hand [] ≡ (text "ts", num (pos 8)) ∷ (text "tilt", str (text "UP")) ∷ []
unfolding assign
by_hand_test = refl

noise-IsToken : IsToken (text "noise")
unfolding is_space
noise-IsToken = record { plain = IsWord-by_check (text "noise") refl; some_text = λ e. cc }

parse_event-no_equals_example :
    parse_event (text "9") (line (map token by_hand ++ text "noise" ∷ [])) ≡ err value_error
parse_event-no_equals_example =
    parse_event-no_equals (text "9") by_hand (text "noise") [] by_hand-IsGood noise-IsToken refl tt

-- An empty ring near the end of its array.
abbrev ring : Ring
ring = record { q = λ i. alarm; q_head = 31; q_tail = 31 }

ring-IsQueue : IsQueue ring []
ring-IsQueue = record { cells = tt; in_range = omega arith; head = refl; bounded = omega arith }

abbrev uses : List Use
uses = reads 192 true ∷ pushed alarm ∷ pushed alarm ∷ reads 8 true ∷ reads 192 false ∷ []

use_all-queue_all_example :
    ((use_all uses ring).0 ≡ (queue_all uses []).0)
    × IsQueue (use_all uses ring).1 (queue_all uses []).1
use_all-queue_all_example = use_all-queue_all uses ring [] ring-IsQueue

-- A level and free belt, and a sample on which the light is blocked.
abbrev free : Belt
free = record {
  tilt = level;
  blockage = clear;
  state = running_ok;
  block_streak = 0;
  clear_streak = 9;
}

abbrev dark : Sample
dark = record { distance_stable = false; light_blocked = true }

work_all-confirm_count_example :
    (work_all 3 2 (fusions 3 2 (dark ∷ dark ∷ dark ∷ [])) free).0.blockage ≡ blocked
work_all-confirm_count_example =
    work_all-confirm_count 3 2 (dark ∷ dark ∷ dark ∷ []) free (refl, (refl, (refl, tt)))
      (omega arith) refl (omega arith) refl

work_all-IsFused_example :
    IsFused (work_all 1 2 (fusion dark ∷ tilt_eval tilted ∷ []) free).0
    × (map is_some (work_all 1 2 (fusion dark ∷ tilt_eval tilted ∷ []) free).1
        ≡ changes 1 2 (fusion dark ∷ tilt_eval tilted ∷ []) free)
unfolding evaluate_state
work_all-IsFused_example = work_all-IsFused 1 2 (fusion dark ∷ tilt_eval tilted ∷ []) free refl

abbrev calm : Node
calm = record { belt = free; fusion_worker = idle; tilt_worker = waiting; reports = [] }

calm-IsSteady : IsSteady calm
unfolding evaluate_state
calm-IsSteady = record { fused = refl; current = tt; reported = tt }

-- The tilt is looked at within a run of the fusion worker, and turns behind it.
abbrev timely : List Turn
timely =
    fusion_turn dark
    ∷ tilt_turn level
    ∷ fusion_turn dark
    ∷ fusion_turn dark
    ∷ tilt_turn tilted
    ∷ fusion_turn dark
    ∷ tilt_turn tilted
    ∷ []

schedule-IsSteady_example :
    IsFused (schedule 1 2 timely calm).belt × All IsTrue (schedule 1 2 timely calm).reports
unfolding advance set_fused_state tilt_eval_work
schedule-IsSteady_example =
    schedule-IsSteady 1 2 timely calm calm-IsSteady (tt, (refl, (tt, (tt, (tt, (tt, (tt, tt)))))))

-- The tilt is seen behind the decision, turns back and turns again.
schedule-stale_example :
    ((schedule 1 2
        (overtaken 1 2 dark (level ∷ []) (tilted ∷ level ∷ level ∷ level ∷ tilted ∷ []))
        calm).belt.tilt
      ≡ tilted)
    × ((schedule 1 2
          (overtaken 1 2 dark (level ∷ []) (tilted ∷ level ∷ level ∷ level ∷ tilted ∷ []))
          calm).belt.state
        ≡ evaluate_state level
            (schedule 1 2
              (overtaken 1 2 dark (level ∷ []) (tilted ∷ level ∷ level ∷ level ∷ tilted ∷ []))
              calm).belt.blockage)
    × ¬ IsFused
        (schedule 1 2
          (overtaken 1 2 dark (level ∷ []) (tilted ∷ level ∷ level ∷ level ∷ tilted ∷ []))
          calm).belt
schedule-stale_example =
    schedule-stale 1 2 dark (level ∷ []) (tilted ∷ level ∷ level ∷ level ∷ tilted ∷ []) calm refl
      refl
