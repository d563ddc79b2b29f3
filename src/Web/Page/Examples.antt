-- ===== src/Web/Page/Examples.antt =====
-- The page on two events, and on a state that is markup.
use embeded_convey_belt.Prelude.{◌≡◌, refl, none, some, Option, false, List, [], ◌∷◌, ◌++◌, arith}
use embeded_convey_belt.Py.{Result, ok, err, Text, text}
use embeded_convey_belt.Py.Int.{pos}
use embeded_convey_belt.Py.Json.{Json, num, str, obj, Fields, end, field, dumps_json}
use embeded_convey_belt.Py.Json.Loads.{loads}
use embeded_convey_belt.Py.Json.Printed.{IsValid}
use embeded_convey_belt.Py.Json.RoundTrip.{loads-dumps}
use embeded_convey_belt.Web.Convert.{Coercions, or_dash, decode_reason, state_class, badge}
use embeded_convey_belt.Web.Page.{Element, Page, on_event, on_messages, row_html}
use embeded_convey_belt.Web.Page.Look.{row, shown}
use embeded_convey_belt.Web.Page.Shown.{sent, on_messages-shown}
use embeded_convey_belt.Web.Reader.EndToEnd.{kept}
use embeded_convey_belt.Event.{assign}
use embeded_convey_belt.Driver.{
  ConveyorEvent, running_ok, level, clear, conveyor_name, tilt_name, blockage_name,
}
use embeded_convey_belt.Daemon.EndToEnd.{Timed}
use embeded_convey_belt.Daemon.Sample.{alarm, twelve_half-IsReal}
use embeded_convey_belt.Web.Page.Markup.{Contains, state, row_html-Contains}

abbrev js : Coercions
js = record { text_of = λ v. none; is_zero = λ r. false; int32 = λ v. some 0; is_near = λ v. none }

-- JSON.parse, as `loads` reads
abbrev parsed : Result Json → Option Json
parsed (ok v) = some v
parsed (err e) = none

abbrev parse : Text → Option Json
parse s = parsed (loads s)

parse-dumps : (v : Json) → IsValid v → parse (dumps_json v) ≡ some v
parse-dumps v h = rw (loads-dumps v h) refl

abbrev nothing : Element
nothing = record { content = []; style = [] }

abbrev page : Page
page = record {
  total = 0;
  banner = nothing;
  tilt = nothing;
  blockage = nothing;
  distance = nothing;
  light = nothing;
  node = [];
  count = 0;
  st_total = 0;
  st_reason = [];
  last_update = [];
  rows = [];
}

-- The time is rendered as noon.
abbrev noon : Text → Text
noon t = text "12:00:00"

abbrev node : Text
node = text "n1"

abbrev message : Timed → Fields
message e = kept noon node e

-- A free belt.
abbrev free : ConveyorEvent
free = record alarm {
  state = running_ok;
  tilt = level;
  blockage = clear;
  distance_cm = pos 30;
  reason_flags = 2;
}

alarm-IsValid : IsValid (obj (message (text "12.5", alarm)))
unfolding IsValid assign conveyor_name tilt_name blockage_name
alarm-IsValid = (
  (refl, (refl, (refl, (refl, (refl, (refl, (refl, (refl, (refl, (refl, (refl, tt))))))))))),
  (
    omega arith,
    tt,
    (
      omega arith,
      omega arith,
      (
        omega arith,
        omega arith,
        (
          omega arith,
          omega arith,
          (
            omega arith,
            tt,
            (
              omega arith,
              tt,
              (
                omega arith,
                tt,
                (
                  omega arith,
                  omega arith,
                  (
                    omega arith,
                    twelve_half-IsReal,
                    (omega arith, omega arith, (omega arith, omega arith, tt)),
                  ),
                ),
              ),
            ),
          ),
        ),
      ),
    ),
  ),
)

free-IsValid : IsValid (obj (message (text "12.5", free)))
unfolding IsValid assign conveyor_name tilt_name blockage_name
free-IsValid = (
  (refl, (refl, (refl, (refl, (refl, (refl, (refl, (refl, (refl, (refl, (refl, tt))))))))))),
  (
    omega arith,
    tt,
    (
      omega arith,
      omega arith,
      (
        omega arith,
        omega arith,
        (
          omega arith,
          omega arith,
          (
            omega arith,
            tt,
            (
              omega arith,
              tt,
              (
                omega arith,
                tt,
                (
                  omega arith,
                  omega arith,
                  (
                    omega arith,
                    twelve_half-IsReal,
                    (omega arith, omega arith, (omega arith, omega arith, tt)),
                  ),
                ),
              ),
            ),
          ),
        ),
      ),
    ),
  ),
)

abbrev earlier : List (Text × Timed)
earlier = (text "1", (text "12.5", free)) ∷ []

on_messages-shown_example :
    on_messages js parse
      (sent js noon node earlier
        ++ (text "2", dumps_json (obj (message (text "12.5", alarm)))) ∷ [])
      page
    ≡ shown noon node
        (text "2")
        (text "12.5", alarm)
        2
        (row noon node (text "12.5", alarm) ∷ row noon node (text "12.5", free) ∷ [])
on_messages-shown_example =
    on_messages-shown js noon node parse earlier (text "2") (text "12.5", alarm) page
      (parse-dumps (obj (message (text "12.5", free))) free-IsValid, tt)
      (parse-dumps (obj (message (text "12.5", alarm))) alarm-IsValid)

-- An event whose state throws is counted, and nothing else changes.
abbrev odd : Fields
odd = field (text "state") (obj (field (text "toString") (num (pos 1)) end)) end

throws_test : on_event js (text "1") odd page ≡ record page { total = 1 }
unfolding on_event state_class
throws_test = refl

reason_test :
    decode_reason js (some (num (pos 10)))
    ≡ some (text "<span class=\"badge\">BLOK</span><span class=\"badge\">DIST</span>")
unfolding decode_reason badge
reason_test = refl

-- The markup of an event whose state is markup.
abbrev script : Fields
script = field (text "state") (str (text "<img src=x onerror=alert(1)>")) end

abbrev text_or_none : Option Text → Text
text_or_none none = []
text_or_none (some t) = t

row_html-Contains_example :
    Contains (text "<img src=x onerror=alert(1)>") (text_or_none (row_html js script))
unfolding row_html or_dash decode_reason
row_html-Contains_example =
    row_html-Contains js state script (text "<img src=x onerror=alert(1)>")
      (text_or_none (row_html js script)) refl (λ e. cc) refl
