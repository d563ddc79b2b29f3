-- ===== src/Web/Page/Look.antt =====
-- What the page is to show of an event of the driver: a description that does not use the script.
use embeded_convey_belt.Prelude.{
  ℕ, zero, suc, ◌%◌, ◌^◌, ◌&&◌, List, [], ◌∷◌, ◌++◌, bit_and, ltb, ◌==◌, if◌then◌else◌,
}
use embeded_convey_belt.Py.{Text, text}
use embeded_convey_belt.Py.Int.{ℤ, pos, negsuc, show_int}
use embeded_convey_belt.Driver.{
  TiltState, level, tilted, BlockageState, clear, blocked, ConveyorState, running_ok,
  blockage_alert, structural_fault, critical_fault, conveyor_name, tilt_name, blockage_name,
}
use embeded_convey_belt.Daemon.EndToEnd.{Timed}
use embeded_convey_belt.Web.Convert.{dash, badge}
use embeded_convey_belt.Web.Page.{Element, Page, cell}

-- The colour of a state.
abbrev pub colour : ConveyorState → Text
colour running_ok = text "ok"
colour blockage_alert = text "blockage"
colour structural_fault = text "structural"
colour critical_fault = text "critical"

abbrev pub tilt_colour : TiltState → Text
tilt_colour level = text "cv-ok"
tilt_colour tilted = text "cv-err"

abbrev pub blockage_colour : BlockageState → Text
blockage_colour clear = text "cv-ok"
blockage_colour blocked = text "cv-warn"

-- Something from 1 to 49 cm away is a warning.
abbrev pub distance_colour : ℤ → Text
distance_colour (pos n) = if ltb 0 n && ltb n 50 then text "cv-warn" else text "cv-neutral"
distance_colour (negsuc n) = text "cv-neutral"

-- A text, or what stands for an empty one.
abbrev pub filled : Text → Text → Text
filled default [] = default
filled default (c ∷ cs) = c ∷ cs

abbrev pub flag : ℕ → ℕ → Text → Text → Text
flag r bit label rest = if bit_and (r % 2 ^ 32) bit == 0 then rest else badge label ++ rest

-- The badges of the reason flags; the flag of a fault, 0x10, has none.
abbrev pub reasons : ℕ → Text
reasons zero = badge dash
reasons (suc n) =
    flag (suc n) 1 (text "TILT") (
      flag (suc n) 2 (text "BLOK") (flag (suc n) 4 (text "LITE") (flag (suc n) 8 (text "DIST") [])))

module _ (wall : Text → Text) (node_id : Text) where
  -- The row of an event: its eight columns.
  abbrev pub row : Timed → Element
  row (t, ev) = record {
    content = cell (filled dash (wall t)) (
        cell (conveyor_name ev.state) (
          cell (tilt_name ev.tilt) (
            cell (blockage_name ev.blockage) (
              cell (show_int ev.distance_cm) (
                cell (show_int ev.light_value)
                  (cell (reasons ev.reason_flags) (cell (filled dash node_id) (text "\n  "))))))));
    style = text "row-" ++ colour ev.state;
  }

  -- The page whose last event is this one, by the number of events and the rows.
  abbrev pub shown : Text → Timed → ℕ → List Element → Page
  shown now (t, ev) total rows = record {
    total = total;
    banner = record { content = conveyor_name ev.state; style = text "s-" ++ colour ev.state };
    tilt = record {
      content = tilt_name ev.tilt;
      style = text "card-value " ++ tilt_colour ev.tilt;
    };
    blockage = record {
      content = blockage_name ev.blockage;
      style = text "card-value " ++ blockage_colour ev.blockage;
    };
    distance = record {
      content = show_int ev.distance_cm ++ text " <span style=\"font-size:.8rem\">cm</span>";
      style = text "card-value " ++ distance_colour ev.distance_cm;
    };
    light = record { content = show_int ev.light_value; style = text "card-value cv-neutral" };
    node = filled dash node_id;
    count = total;
    st_total = total;
    st_reason = reasons ev.reason_flags;
    last_update = filled now (wall t);
    rows = rows;
  }
