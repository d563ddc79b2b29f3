-- ===== src/Subscriber/Display/Columns.antt =====
-- The line that the terminal is to show for an event of the driver, in its columns.
use embeded_convey_belt.Prelude.{ℕ, zero, suc, ◌-◌, All-append, ◌++◌, All, length, arith}
use embeded_convey_belt.Py.{Text, text}
use embeded_convey_belt.Py.Utf8.{IsScalar}
use embeded_convey_belt.Event.Json.Ascii.{
  printable-IsScalar, show_int-IsPrintable, Digits-IsPrintable,
}
use embeded_convey_belt.Py.Int.{ℤ, pos, show_int, show_nat}
use embeded_convey_belt.Py.Int.Digits.{show_nat-Digits}
use embeded_convey_belt.Driver.{
  TiltState, level, tilted, BlockageState, clear, blocked, ConveyorEvent, ConveyorState, running_ok,
  blockage_alert, structural_fault, critical_fault, tilt_name, blockage_name, conveyor_name,
}
use embeded_convey_belt.Subscriber.Display.{replicate, two_hex}

abbrev pub icon : ConveyorState → Text
icon running_ok = text "OK  "
icon blockage_alert = text "BLOK"
icon structural_fault = text "STRC"
icon critical_fault = text "CRIT"

-- A text in a column, on its left or its right.
abbrev pub column : ℕ → Text → Text
column width s = s ++ replicate (width - length s) 32

abbrev pub right_column : ℕ → Text → Text
right_column width s = replicate (width - length s) 32 ++ s

-- The line of a driver event, its time rendered as `wall`.
abbrev pub driver_line : Text → Text → ConveyorEvent → Text
driver_line wall node_id ev =
    text "["
    ++ (wall
        ++ (text "] ["
            ++ (icon ev.state
                ++ (text "] "
                    ++ (column 12 node_id
                        ++ (text " state="
                            ++ (column 18 (conveyor_name ev.state)
                                ++ (text " tilt="
                                    ++ (column 7 (tilt_name ev.tilt)
                                        ++ (text " blockage="
                                            ++ (column 8 (blockage_name ev.blockage)
                                                ++ (text " dist="
                                                    ++ (right_column 4 (show_int ev.distance_cm)
                                                        ++ (text "cm light="
                                                            ++ (right_column 5
                                                            (show_int ev.light_value)
                                                            ++ (text "  reason=0x"
                                                            ++ two_hex
                                                            (pos ev.reason_flags)))))))))))))))))

replicate-IsScalar : (n c : ℕ) → IsScalar c → All IsScalar (replicate n c)
replicate-IsScalar zero c h = tt
replicate-IsScalar (suc n) c h = (h, replicate-IsScalar n c h)

column-IsScalar : (width : ℕ) (s : Text) → All IsScalar s → All IsScalar (column width s)
column-IsScalar width s h =
    All-append IsScalar s (replicate (width - length s) 32) h
      (replicate-IsScalar (width - length s) 32 (omega arith))

right_column-IsScalar :
    (width : ℕ) (s : Text) → All IsScalar s → All IsScalar (right_column width s)
right_column-IsScalar width s h =
    All-append IsScalar (replicate (width - length s) 32) s
      (replicate-IsScalar (width - length s) 32 (omega arith)) h

icon-IsScalar : (s : ConveyorState) → All IsScalar (icon s)
icon-IsScalar running_ok = omega arith
icon-IsScalar blockage_alert = omega arith
icon-IsScalar structural_fault = omega arith
icon-IsScalar critical_fault = omega arith

conveyor_name-IsScalar : (s : ConveyorState) → All IsScalar (conveyor_name s)
unfolding conveyor_name
conveyor_name-IsScalar running_ok = omega arith
conveyor_name-IsScalar blockage_alert = omega arith
conveyor_name-IsScalar structural_fault = omega arith
conveyor_name-IsScalar critical_fault = omega arith

tilt_name-IsScalar : (t : TiltState) → All IsScalar (tilt_name t)
unfolding tilt_name
tilt_name-IsScalar level = omega arith
tilt_name-IsScalar tilted = omega arith

blockage_name-IsScalar : (b : BlockageState) → All IsScalar (blockage_name b)
unfolding blockage_name
blockage_name-IsScalar clear = omega arith
blockage_name-IsScalar blocked = omega arith

number-IsScalar : (z : ℤ) → All IsScalar (show_int z)
number-IsScalar z = printable-IsScalar (show_int z) (show_int-IsPrintable z)

two_hex-IsScalar : (n : ℕ) → All IsScalar (two_hex (pos n))
two_hex-IsScalar n =
    All-append IsScalar (replicate (2 - length (show_nat 16 n)) b'0') (show_nat 16 n)
      (replicate-IsScalar (2 - length (show_nat 16 n)) b'0' (omega arith))
      (printable-IsScalar (show_nat 16 n)
        (Digits-IsPrintable (show_nat 16 n) (show_nat-Digits 16 n (omega arith) (omega arith))))

-- Two pieces of the line: a text and a column.
piece-IsScalar :
    (a b rest : Text)
    → All IsScalar a
    → All IsScalar b
    → All IsScalar rest
    → All IsScalar (a ++ (b ++ rest))
piece-IsScalar a b rest ha hb h =
    All-append IsScalar a (b ++ rest) ha (All-append IsScalar b rest hb h)

pub driver_line-IsScalar :
    (wall node_id : Text) (ev : ConveyorEvent)
    → All IsScalar wall
    → All IsScalar node_id
    → All IsScalar (driver_line wall node_id ev)
driver_line-IsScalar wall node_id ev hw hn = piece-IsScalar (text "[") wall _ (omega arith) hw (
    piece-IsScalar (text "] [") (icon ev.state) _ (omega arith) (icon-IsScalar ev.state) (
      piece-IsScalar (text "] ") (column 12 node_id) _ (omega arith) (column-IsScalar 12 node_id hn)
        (piece-IsScalar (text " state=") (column 18 (conveyor_name ev.state)) _ (omega arith)
          (column-IsScalar 18 _ (conveyor_name-IsScalar ev.state))
          (piece-IsScalar (text " tilt=") (column 7 (tilt_name ev.tilt)) _ (omega arith)
            (column-IsScalar 7 _ (tilt_name-IsScalar ev.tilt))
            (piece-IsScalar (text " blockage=") (column 8 (blockage_name ev.blockage)) _
              (omega arith) (column-IsScalar 8 _ (blockage_name-IsScalar ev.blockage))
              (piece-IsScalar (text " dist=") (right_column 4 (show_int ev.distance_cm)) _
                (omega arith) (right_column-IsScalar 4 _ (number-IsScalar ev.distance_cm))
                (piece-IsScalar (text "cm light=") (right_column 5 (show_int ev.light_value)) _
                  (omega arith) (right_column-IsScalar 5 _ (number-IsScalar ev.light_value))
                  (All-append IsScalar (text "  reason=0x") (two_hex (pos ev.reason_flags))
                    (omega arith) (two_hex-IsScalar ev.reason_flags)))))))))
