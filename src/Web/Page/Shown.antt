-- ===== src/Web/Page/Shown.antt =====
-- The page after the events of the driver, which the web server keeps and sends.
use embeded_convey_belt.Prelude.{
  ℕ, zero, suc, ◌+◌, ◌≡◌, ◌∙◌, refl, ap, Option, some, List, [], ◌∷◌, ◌++◌, All, take, length,
  if◌then◌else◌, arith,
}
use embeded_convey_belt.Py.{Text, text}
use embeded_convey_belt.Py.Int.{ℤ, pos, negsuc, show_int}
use embeded_convey_belt.Py.Json.{Json, num, str, obj, lookup, dumps_json}
use embeded_convey_belt.Event.{assign}
use embeded_convey_belt.Driver.{
  TiltState, level, tilted, BlockageState, clear, blocked, ConveyorState, running_ok,
  blockage_alert, structural_fault, critical_fault, conveyor_name, tilt_name, blockage_name,
}
use embeded_convey_belt.Daemon.EndToEnd.{Timed}
use embeded_convey_belt.Web.Reader.EndToEnd.{kept}
use embeded_convey_belt.Web.Convert.{
  Coercions, dash, is_text, or_dash, string_of, truthy, decode_reason, class_of, state_class, near,
  dist_class,
}
use embeded_convey_belt.Web.Page.{
  Element, Page, max_rows, run_all, banner_steps, card_steps, row_steps, insert_row, row_html,
  cards_of, on_event, on_value, on_message, on_messages,
}
use embeded_convey_belt.Web.Page.Rows.{trim-take, rows_step}
use mathlib.Core.Option
use mathlib.Core.List.{reverse}
use embeded_convey_belt.Web.Page.Look.{
  colour, tilt_colour, blockage_colour, distance_colour, filled, reasons, row, shown,
}

module _ (js : Coercions) where
  state_class-name :
      (s : ConveyorState) → state_class js (some (str (conveyor_name s))) ≡ some (colour s)
  unfolding state_class conveyor_name class_of
  state_class-name running_ok = refl
  state_class-name blockage_alert = refl
  state_class-name structural_fault = refl
  state_class-name critical_fault = refl

  or_dash-state :
      (s : ConveyorState) → or_dash js (some (str (conveyor_name s))) ≡ some (conveyor_name s)
  unfolding or_dash conveyor_name
  or_dash-state running_ok = refl
  or_dash-state blockage_alert = refl
  or_dash-state structural_fault = refl
  or_dash-state critical_fault = refl

  or_dash-tilt : (t : TiltState) → or_dash js (some (str (tilt_name t))) ≡ some (tilt_name t)
  unfolding or_dash tilt_name
  or_dash-tilt level = refl
  or_dash-tilt tilted = refl

  or_dash-blockage :
      (b : BlockageState) → or_dash js (some (str (blockage_name b))) ≡ some (blockage_name b)
  unfolding or_dash blockage_name
  or_dash-blockage clear = refl
  or_dash-blockage blocked = refl

  or_dash-filled : (s : Text) → or_dash js (some (str s)) ≡ some (filled dash s)
  unfolding or_dash
  or_dash-filled [] = refl
  or_dash-filled (c ∷ cs) = refl

  updated-filled :
      (now s : Text)
      → (if truthy js (some (str s)) then string_of js (some (str s)) else some now)
        ≡ some (filled now s)
  updated-filled now [] = refl
  updated-filled now (c ∷ cs) = refl

  tilt_class-colour :
      (t : TiltState)
      → (if is_text (some (str (tilt_name t))) (text "LEVEL") then text "cv-ok" else text "cv-err")
        ≡ tilt_colour t
  unfolding tilt_name
  tilt_class-colour level = refl
  tilt_class-colour tilted = refl

  blockage_class-colour :
      (b : BlockageState)
      → (if is_text (some (str (blockage_name b))) (text "CLEAR")
          then text "cv-ok"
          else text "cv-warn")
        ≡ blockage_colour b
  unfolding blockage_name
  blockage_class-colour clear = refl
  blockage_class-colour blocked = refl

  dist_class-colour :
      (z : ℤ) → Option.map dist_class (near js (some (num z))) ≡ some (distance_colour z)
  dist_class-colour (pos n) = refl
  dist_class-colour (negsuc n) = refl

  decode_reason-reasons : (r : ℕ) → decode_reason js (some (num (pos r))) ≡ some (reasons r)
  unfolding decode_reason
  decode_reason-reasons zero = refl
  decode_reason-reasons (suc n) = refl

  -- What the server keeps of an event of the driver.
  module _ (wall : Text → Text) (node_id : Text) where
    cards_of-kept :
        (now : Text) (e : Timed)
        → cards_of js now (kept wall node_id e) ≡ record {
          tilt = some (tilt_name e.1.tilt);
          tilt_cls = tilt_colour e.1.tilt;
          blockage = some (blockage_name e.1.blockage);
          blockage_cls = blockage_colour e.1.blockage;
          dist_cls = some (distance_colour e.1.distance_cm);
          dist = some (show_int e.1.distance_cm);
          light = some (show_int e.1.light_value);
          node = some (filled dash node_id);
          reason = some (reasons e.1.reason_flags);
          updated = some (filled now (wall e.0));
        }
    unfolding assign
    cards_of-kept now (t, ev) =
        let a = or_dash-tilt ev.tilt in
        let b = tilt_class-colour ev.tilt in
        let c = or_dash-blockage ev.blockage in
        let d = blockage_class-colour ev.blockage in
        let f = dist_class-colour ev.distance_cm in
        let g = or_dash-filled node_id in
        let h = decode_reason-reasons ev.reason_flags in
        let i = updated-filled now (wall t) in
        λ k. record {
          tilt = a k;
          tilt_cls = b k;
          blockage = c k;
          blockage_cls = d k;
          dist_cls = f k;
          dist = some (show_int ev.distance_cm);
          light = some (show_int ev.light_value);
          node = g k;
          reason = h k;
          updated = i k;
        }

    row_html-kept :
        (e : Timed) → row_html js (kept wall node_id e) ≡ some (row wall node_id e).content
    unfolding assign row_html
    row_html-kept (t, ev) =
        rw
          (
            or_dash-filled (wall t),
            or_dash-state ev.state,
            or_dash-tilt ev.tilt,
            or_dash-blockage ev.blockage,
            decode_reason-reasons ev.reason_flags,
            or_dash-filled node_id,
          )
          refl

    banner_class-kept :
        (e : Timed)
        → state_class js (lookup (text "state") (kept wall node_id e)) ≡ some (colour e.1.state)
    unfolding assign
    banner_class-kept (t, ev) = state_class-name ev.state

    banner_text-kept :
        (e : Timed)
        → or_dash js (lookup (text "state") (kept wall node_id e)) ≡ some (conveyor_name e.1.state)
    unfolding assign
    banner_text-kept (t, ev) = or_dash-state ev.state

    on_event-shown :
        (now : Text) (e : Timed) (page : Page)
        → on_event js now (kept wall node_id e) page
          ≡ shown wall node_id now e
              (page.total + 1)
              (take max_rows (row wall node_id e ∷ page.rows))
    unfolding on_event insert_row
    on_event-shown now e page =
        ap (λ steps. run_all steps page)
          (λ k.
            some (λ p. record p { total = p.total + 1 })
            ∷ (banner_steps (banner_class-kept e k) (banner_text-kept e k)
                ++ (card_steps (cards_of-kept now e k)
                    ++ row_steps (banner_class-kept e k) (row_html-kept e k))))
        ∙ ap (λ l. shown wall node_id now e (page.total + 1) l)
            (trim-take (length (row wall node_id e ∷ page.rows)) (row wall node_id e ∷ page.rows)
              (omega arith))

    -- The messages of events, each with the time at which it comes.
    abbrev pub sent : List (Text × Timed) → List (Text × Text)
    sent [] = []
    sent ((now, e) ∷ more) = (now, dumps_json (obj (kept wall node_id e))) ∷ sent more

    abbrev pub rows_of : List (Text × Timed) → List Element
    rows_of [] = []
    rows_of ((now, e) ∷ more) = row wall node_id e ∷ rows_of more

    module _ (parse : Text → Option Json) where
      -- `JSON.parse` reads the message of an event as it is.
      abbrev pub IsRead : Text × Timed → Type 0
      IsRead (now, e) =
          parse (dumps_json (obj (kept wall node_id e))) ≡ some (obj (kept wall node_id e))

      one_message :
          (now : Text) (e : Timed) (more : List (Text × Text)) (page : Page)
          → IsRead (now, e)
          → on_messages js parse ((now, dumps_json (obj (kept wall node_id e))) ∷ more) page
            ≡ on_messages js parse more (
                shown wall node_id now e
                  (page.total + 1)
                  (take max_rows (row wall node_id e ∷ page.rows)))
      unfolding on_messages on_message
      one_message now e more page read =
          ap (λ v. on_messages js parse more (on_value js now v page)) read
          ∙ ap (λ p. on_messages js parse more p) (on_event-shown now e page)

      -- The page after the messages of some events of the driver, which the web server keeps with their node and
      -- time, and one more, whatever it was before: every counter says how many events have come; the
      -- banner, the cards and the statistics show the values of the last event in its colours; and the
      -- table holds the rows of the 100 newest events, the newest first, in front of the earlier rows.
      -- `JSON.parse` reads the messages as they are.
      pub on_messages-shown :
          (before : List (Text × Timed)) (now : Text) (e : Timed) (page : Page)
          → All IsRead before
          → IsRead (now, e)
          → on_messages js parse
              (sent before ++ (now, dumps_json (obj (kept wall node_id e))) ∷ [])
              page
            ≡ shown wall node_id now e
                (page.total + suc (length before))
                (take max_rows (row wall node_id e ∷ (reverse (rows_of before) ++ page.rows)))
      on_messages-shown [] now e page h read =
          one_message now e [] page read ∙ unfold on_messages in refl
      on_messages-shown ((t, f) ∷ before) now e page h read =
          one_message t f (sent before ++ (now, dumps_json (obj (kept wall node_id e))) ∷ []) page
            h.0
          ∙ on_messages-shown before now e _ h.1 read
          ∙ ap (λ l. shown wall node_id now e (page.total + 1 + suc (length before)) l)
              (rows_step page.rows (row wall node_id f) (row wall node_id e) (rows_of before))
          ∙ ap
              (λ n. shown wall node_id now e n (
                take max_rows (
                  row wall node_id e
                  ∷ (reverse (row wall node_id f ∷ rows_of before) ++ page.rows))))
              (omega arith)
