-- ===== src/Web/Page.antt =====
-- The script of the page that broker/conveyor_web.py serves: what the browser shows after each event.
pub mod Rows
pub mod Look
pub mod Shown
pub mod Markup
mod Examples
use embeded_convey_belt.Prelude.{
  ℕ, zero, suc, ◌+◌, ◌-◌, ◌^◌, ◌%◌, ◌&&◌, Option, none, some, Bool, true, false, not, List, [], ◌∷◌,
  ◌++◌, bit_and, length, ltb, ◌==◌, if◌then◌else◌,
}
use embeded_convey_belt.Py.{Text, text}
use embeded_convey_belt.Py.Int.{ℤ, pos, negsuc, show_int}
use mathlib.Core.Option
use embeded_convey_belt.Py.Str.{text_eq}
use embeded_convey_belt.Py.Json.{Json, null, bool, num, real, str, arr, obj, Fields, end, lookup}
use embeded_convey_belt.Web.Convert.{
  Coercions, dash, class_of, reason_bits, badge, badges, fields_of, is_text, string_of, truthy,
  or_dash, nullish_dash, int32_of, badges_of, decode_reason, state_class, near, dist_class,
}

-- What an element shows: its text or its markup, and its class.
pub record Element : Type 0 where
  pub content : Text
  pub style : Text

pub record Page : Type 0 where
  pub total : ℕ
  pub banner : Element
  pub tilt : Element
  pub blockage : Element
  pub distance : Element
  pub light : Element
  pub node : Text
  pub count : ℕ
  pub st_total : ℕ
  pub st_reason : Text
  pub last_update : Text
  pub rows : List Element

abbrev pub max_rows : ℕ
max_rows = 100

-- tbody.deleteRow(tbody.rows.length - 1)
abbrev pub delete_last : List Element → List Element
delete_last [] = []
delete_last (r ∷ []) = []
delete_last (r ∷ s ∷ rows) = r ∷ delete_last (s ∷ rows)

-- The `while` of `addRow`, which deletes one row in each round.
unfoldable pub trim : ℕ → List Element → List Element
trim zero rows = rows
trim (suc fuel) rows =
    let shorter = trim fuel (delete_last rows) in
    if ltb max_rows (length rows) then shorter else rows

abbrev pub cell : Text → Text → Text
cell content rest = text "\n    <td>" ++ (content ++ (text "</td>" ++ rest))

-- The template of `addRow`: a cell whose value cannot be converted throws.
abbrev pub in_cell : Text → Option Text → Option Text
in_cell content none = none
in_cell content (some rest) = some (cell content rest)

abbrev pub cells : List (Option Text) → Option Text
cells [] = some (text "\n  ")
cells (none ∷ more) = none
cells (some content ∷ more) = in_cell content (cells more)

-- A statement changes the page, or throws.
abbrev pub run_all : List (Option (Page → Page)) → Page → Page
run_all [] page = page
run_all (none ∷ more) page = page
run_all (some change ∷ more) page = run_all more (change page)

abbrev pub assign : Option Text → (Text → Page → Page) → Option (Page → Page)
assign none change = none
assign (some value) change = some (change value)

-- tbody.insertBefore(tr, tbody.firstChild), and the `while`
unfoldable pub insert_row : Element → Page → Page
insert_row tr page = let rows = tr ∷ page.rows in record page { rows = trim (length rows) rows }

-- The statements of `updateBanner`, by what `stateClass(ev.state)` and `ev.state || '—'` come to.
abbrev pub banner_steps : Option Text → Option Text → List (Option (Page → Page))
banner_steps cls state =
    assign cls (λ t page. record page { banner = record page.banner { style = text "s-" ++ t } })
    ∷ assign state (λ t page. record page { banner = record page.banner { content = t } })
    ∷ []

-- The statements of `addRow`, by the class and the markup.
abbrev pub row_steps : Option Text → Option Text → List (Option (Page → Page))
row_steps cls html =
    assign cls (λ t page. page)
    ∷ assign cls (λ c page.
      run_all
        (assign html (λ t. insert_row (record { content = t; style = text "row-" ++ c })) ∷ [])
        page)
    ∷ []

-- What the expressions of `updateCards` come to. The test of the distance is evaluated before the distance is
-- shown.
pub record Cards : Type 0 where
  pub tilt : Option Text
  pub tilt_cls : Text
  pub blockage : Option Text
  pub blockage_cls : Text
  pub dist_cls : Option Text
  pub dist : Option Text
  pub light : Option Text
  pub node : Option Text
  pub reason : Option Text
  pub updated : Option Text

-- el.className = 'card-value ' + cls
abbrev pub card_value : Text → Text
card_value cls = text "card-value " ++ cls

abbrev pub card_steps : Cards → List (Option (Page → Page))
card_steps c =
    assign c.tilt
      (λ t page. record page { tilt = record { content = t; style = card_value c.tilt_cls } })
    ∷ assign c.blockage (λ t page. record page {
      blockage = record { content = t; style = card_value c.blockage_cls };
    })
    ∷ assign c.dist_cls (λ t page. page)
    ∷ assign c.dist (λ t page. record page {
      distance = record page.distance {
        content = t ++ text " <span style=\"font-size:.8rem\">cm</span>";
      };
    })
    ∷ assign c.dist_cls
        (λ t page. record page { distance = record page.distance { style = card_value t } })
    ∷ assign c.light (λ t page. record page {
      light = record { content = t; style = card_value (text "cv-neutral") };
    })
    ∷ assign c.node (λ t page. record page { node = t; count = page.total; st_total = page.total })
    ∷ assign c.reason (λ t page. record page { st_reason = t })
    ∷ assign c.updated (λ t page. record page { last_update = t })
    ∷ []

module _ (js : Coercions) where
  abbrev pub update_banner : Fields → List (Option (Page → Page))
  update_banner ev =
      banner_steps (state_class js (lookup (text "state") ev))
        (or_dash js (lookup (text "state") ev))

  -- new Date().toLocaleTimeString() is `now`.
  abbrev pub cards_of : Text → Fields → Cards
  cards_of now ev = record {
    tilt = or_dash js (lookup (text "tilt") ev);
    tilt_cls =
        if is_text (lookup (text "tilt") ev) (text "LEVEL") then text "cv-ok" else text "cv-err";
    blockage = or_dash js (lookup (text "blockage") ev);
    blockage_cls =
        if is_text (lookup (text "blockage") ev) (text "CLEAR")
        then text "cv-ok"
        else text "cv-warn";
    dist_cls = Option.map dist_class (near js (lookup (text "distance_cm") ev));
    dist = nullish_dash js (lookup (text "distance_cm") ev);
    light = nullish_dash js (lookup (text "light") ev);
    node = or_dash js (lookup (text "node_id") ev);
    reason = decode_reason js (lookup (text "reason") ev);
    updated =
        if truthy js (lookup (text "_wall") ev)
        then string_of js (lookup (text "_wall") ev)
        else some now;
  }

  abbrev pub update_cards : Text → Fields → List (Option (Page → Page))
  update_cards now ev = card_steps (cards_of now ev)

  unfoldable pub row_html : Fields → Option Text
  row_html ev = cells (
      or_dash js (lookup (text "_wall") ev)
      ∷ or_dash js (lookup (text "state") ev)
      ∷ or_dash js (lookup (text "tilt") ev)
      ∷ or_dash js (lookup (text "blockage") ev)
      ∷ nullish_dash js (lookup (text "distance_cm") ev)
      ∷ nullish_dash js (lookup (text "light") ev)
      ∷ decode_reason js (lookup (text "reason") ev)
      ∷ or_dash js (lookup (text "node_id") ev)
      ∷ [])

  abbrev pub add_row : Fields → List (Option (Page → Page))
  add_row ev = row_steps (state_class js (lookup (text "state") ev)) (row_html ev)

  -- onEvent; the `catch` leaves the page as it is when a statement throws.
  unfoldable pub on_event : Text → Fields → Page → Page
  on_event now ev page =
      run_all
        (some (λ page. record page { total = page.total + 1 })
          ∷ (update_banner ev ++ (update_cards now ev ++ add_row ev)))
        page

  -- At `null` the counter is up before `ev.state` throws.
  abbrev pub on_value : Text → Option Json → Page → Page
  on_value now none page = page
  on_value now (some null) page = record page { total = page.total + 1 }
  on_value now (some v) page = on_event now (fields_of v) page

  -- src.onmessage, where `parse` is JSON.parse
  unfoldable pub on_message : (Text → Option Json) → Text → Text → Page → Page
  on_message parse now content page = on_value now (parse content) page

  unfoldable pub on_messages : (Text → Option Json) → List (Text × Text) → Page → Page
  on_messages parse [] page = page
  on_messages parse ((now, content) ∷ more) page =
      on_messages parse more (on_message parse now content page)
