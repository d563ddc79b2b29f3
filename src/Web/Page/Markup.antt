-- ===== src/Web/Page/Markup.antt =====
-- The markup of a row: the texts of an event stand in it as they came.
use embeded_convey_belt.Prelude.{
  ◌≡◌, ◌≢◌, ◌∙◌, refl, sym, ap, Option, none, some, List, [], ◌∷◌, ◌++◌, append_assoc, inl, inr,
  ◌⊎◌,
}
use embeded_convey_belt.Py.{Text, text}
use embeded_convey_belt.Py.Json.{Json, str, Fields, lookup}
use embeded_convey_belt.Web.Convert.{Coercions, or_dash}
use embeded_convey_belt.Web.Page.{cell, cells, row_html}
use mathlib.Core.Path.{subst}

-- A text within another.
abbrev pub Contains : Text → Text → Type 0
Contains s whole = (front : Text) × (back : Text) × (whole ≡ front ++ (s ++ back))

Contains-in_cell : (s content rest : Text) → Contains s rest → Contains s (cell content rest)
Contains-in_cell s content rest (front, back, e) = (
  text "\n    <td>" ++ (content ++ (text "</td>" ++ front)),
  back,
  ap (λ (t : Text). text "\n    <td>" ++ t)
      (ap (λ (t : Text). content ++ (text "</td>" ++ t)) e
        ∙ sym (append_assoc content (text "</td>" ++ front) (s ++ back))),
)

Contains-cell : (s rest : Text) → Contains s (cell s rest)
Contains-cell s rest = (text "\n    <td>", text "</td>" ++ rest, refl)

Option-cases : (o : Option Text) → (o ≡ none) ⊎ ((t : Text) × (o ≡ some t))
Option-cases none = inl refl
Option-cases (some t) = inr (t, refl)

-- The markup of a row holds the text of each cell.
cells-Contains :
    (before : List (Option Text)) (s : Text) (after : List (Option Text)) (html : Text)
    → cells (before ++ some s ∷ after) ≡ some html
    → Contains s html
cells-Contains [] s after html e = elim (Option-cases (cells after)) [
  | inl gone ↦ absurd (let bad : ◌≡◌ {A = Option Text} none (some html) = rw gone at e in cc)
  | inr (rest, there) ↦
      let same : cell s rest ≡ html = cc in subst (λ t. Contains s t) same (Contains-cell s rest)
]
cells-Contains (none ∷ before) s after html e =
    absurd (let bad : ◌≡◌ {A = Option Text} none (some html) = e in cc)
cells-Contains (some c ∷ before) s after html e =
    elim (Option-cases (cells (before ++ some s ∷ after))) [
      | inl gone ↦ absurd (let bad : ◌≡◌ {A = Option Text} none (some html) = rw gone at e in cc)
      | inr (rest, there) ↦
          let same : cell c rest ≡ html = cc in
          subst (λ t. Contains s t) same
            (Contains-in_cell s c rest (cells-Contains before s after rest there))
    ]

-- The columns that show texts.
pub data Column : Type 0 where
  wall state tilt blockage node : Column

abbrev pub key : Column → Text
key wall = text "_wall"
key state = text "state"
key tilt = text "tilt"
key blockage = text "blockage"
key node = text "node_id"

module _ (js : Coercions) where
  or_dash-text : (v : Option Json) (s : Text) → v ≡ some (str s) → s ≢ [] → or_dash js v ≡ some s
  unfolding or_dash
  or_dash-text v [] e h = absurd (h refl)
  or_dash-text v (c ∷ cs) e h = rw e refl

  shown :
      (before after : List (Option Text)) (v : Option Json) (s html : Text)
      → v ≡ some (str s)
      → s ≢ []
      → cells (before ++ or_dash js v ∷ after) ≡ some html
      → Contains s html
  shown before after v s html e h made =
      cells-Contains before s after html
        (ap (λ w. cells (before ++ w ∷ after)) (sym (or_dash-text v s e h)) ∙ made)

  -- A text in the time, the state, the tilt, the blockage or the node of an event stands in the markup of
  -- the event's row, if no value throws, character by character, unless it is empty: nothing in it is
  -- escaped.
  pub row_html-Contains :
      (column : Column) (ev : Fields) (s html : Text)
      → lookup (key column) ev ≡ some (str s)
      → s ≢ []
      → row_html js ev ≡ some html
      → Contains s html
  unfolding row_html
  row_html-Contains wall ev s html e h made = shown [] _ _ s html e h made
  row_html-Contains state ev s html e h made = shown (_ ∷ []) _ _ s html e h made
  row_html-Contains tilt ev s html e h made = shown (_ ∷ _ ∷ []) _ _ s html e h made
  row_html-Contains blockage ev s html e h made = shown (_ ∷ _ ∷ _ ∷ []) _ _ s html e h made
  row_html-Contains node ev s html e h made =
      shown (_ ∷ _ ∷ _ ∷ _ ∷ _ ∷ _ ∷ _ ∷ []) [] _ s html e h made
