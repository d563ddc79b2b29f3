-- ===== src/Event/Loads.antt =====
-- What `json.loads` makes of the payload that conveyor_event_daemon.py writes for a line.
use embeded_convey_belt.Prelude.{
  ◌≡◌, ◌∙◌, refl, ap, inl, inr, false, ◌||◌, none, some, List, [], ◌∷◌, ◌++◌, append_assoc, All,
  arith, Bool-cases,
}
use embeded_convey_belt.Py.{Result, ok, err, value_error, Text, text, Result-cases}
use embeded_convey_belt.Py.Utf8.{IsScalar}
use embeded_convey_belt.Py.Int.{parse_int}
use embeded_convey_belt.Py.Str.{strip, split, contains, before, behind, starts_with, text_eq}
use embeded_convey_belt.Py.Str.Kept.{All-strip, All-split, All-before, All-behind}
use embeded_convey_belt.Py.Json.{Json, obj, Fields, end, field, lookup, dumps_json, more_fields}
use embeded_convey_belt.Py.Json.Loads.{loads}
use embeded_convey_belt.Py.Json.Numbers.{IsReal}
use embeded_convey_belt.Py.Json.Printed.{has_key, IsDict, IsValid, AllFields}
use embeded_convey_belt.Py.Json.RoundTrip.{loads-dumps}
use embeded_convey_belt.Event.{
  Value, num, str, real, Event, assign, get, or_text, parse_value, parse_token, parse_tokens,
  parse_event,
}
use embeded_convey_belt.Event.Fields.{text_eq_iff}
use embeded_convey_belt.Event.Json.{quoted, dumps_value, members, dumps}

-- The dictionary as a JSON object.
abbrev pub of_value : Value → Json
of_value (num z) = Json.num z
of_value (str s) = Json.str s
of_value (real r) = Json.real r

abbrev pub of_event : Event → Fields
of_event [] = end
of_event ((k, v) ∷ ev) = field k (of_value v) (of_event ev)

dumps_value-of_value : (v : Value) → dumps_value v ≡ dumps_json (of_value v)
unfolding dumps_json
dumps_value-of_value (num z) = refl
dumps_value-of_value (str s) = refl
dumps_value-of_value (real r) = refl

members-of_event :
    (k : Text) (v : Value) (ev : Event)
    → members ((k, v) ∷ ev) ++ b'}' ∷ []
      ≡ quoted k ++ b':' ∷ (dumps_json (of_value v) ++ more_fields (of_event ev))
unfolding dumps_json
members-of_event k v [] =
    append_assoc (quoted k) (b':' ∷ dumps_value v) (b'}' ∷ [])
    ∙ ap (λ (t : Text). quoted k ++ b':' ∷ (t ++ b'}' ∷ [])) (dumps_value-of_value v)
members-of_event k v ((j, w) ∷ ev) =
    append_assoc (quoted k) (b':' ∷ (dumps_value v ++ b',' ∷ members ((j, w) ∷ ev))) (b'}' ∷ [])
    ∙ ap (λ (t : Text). quoted k ++ b':' ∷ t)
        (append_assoc (dumps_value v) (b',' ∷ members ((j, w) ∷ ev)) (b'}' ∷ [])
          ∙ ap (λ (t : Text). dumps_value v ++ b',' ∷ t) (members-of_event j w ev)
          ∙ ap (λ (t : Text). t ++ more_fields (of_event ((j, w) ∷ ev))) (dumps_value-of_value v))

dumps-of_event : (ev : Event) → dumps ev ≡ dumps_json (obj (of_event ev))
unfolding dumps dumps_json
dumps-of_event [] = refl
dumps-of_event ((k, v) ∷ ev) = ap (λ (t : Text). b'{' ∷ t) (members-of_event k v ev)

pub lookup-of_event :
    (k : Text) (ev : Event)
    → lookup k (of_event ev) ≡ (elim (get k ev) [ none ↦ none | some v ↦ some (of_value v) ])
unfolding get
lookup-of_event k [] = refl
lookup-of_event k ((j, w) ∷ ev) = elim (Bool-cases (text_eq j k)) [
  | inl same ↦ rw same refl
  | inr other ↦ rw other (lookup-of_event k ev)
]

-- The keys of a dictionary stay distinct.
has_key-assign :
    (j k : Text) (v : Value) (ev : Event)
    → has_key j (of_event (assign k v ev)) ≡ (text_eq k j || has_key j (of_event ev))
unfolding assign
has_key-assign j k v [] = ground arith
has_key-assign j k v ((i, w) ∷ ev) =
    ground (arith, text_eq_iff i k, text_eq_iff i j, text_eq_iff k j, has_key-assign j k v ev)

IsDict-assign :
    (k : Text) (v : Value) (ev : Event) → IsDict (of_event ev) → IsDict (of_event (assign k v ev))
unfolding assign
IsDict-assign k v [] h = (refl, tt)
IsDict-assign k v ((i, w) ∷ ev) h = elim (Bool-cases (text_eq i k)) [
  | inl same ↦ rw same (rw (← (text_eq_iff i k).0 same) (h.0), h.1)
  | inr other ↦
      let apart : text_eq k i ≡ false = ground (arith, text_eq_iff i k, text_eq_iff k i, other) in
      rw other (has_key-assign i k v ev ∙ rw (apart, h.0) refl, IsDict-assign k v ev h.1)
]

-- The texts of an event are of scalar values, and its floats decimal.
abbrev pub IsText : Value → Type 0
IsText (num z) = Unit
IsText (str s) = All IsScalar s
IsText (real r) = IsReal r

abbrev pub AllText : Event → Type 0
AllText [] = Unit
AllText ((k, v) ∷ ev) = All IsScalar k × IsText v × AllText ev

IsText-IsValid : (v : Value) → IsText v → IsValid (of_value v)
unfolding IsValid
IsText-IsValid (num z) h = tt
IsText-IsValid (str s) h = h
IsText-IsValid (real r) h = h

AllText-AllFields : (ev : Event) → AllText ev → AllFields (of_event ev)
unfolding IsValid
AllText-AllFields [] h = tt
AllText-AllFields ((k, v) ∷ ev) h = (h.0, IsText-IsValid v h.1, AllText-AllFields ev h.2)

AllText-assign :
    (k : Text) (v : Value) (ev : Event)
    → All IsScalar k
    → IsText v
    → AllText ev
    → AllText (assign k v ev)
unfolding assign
AllText-assign k v [] hk hv h = (hk, hv, tt)
AllText-assign k v ((i, w) ∷ ev) hk hv h = elim (Bool-cases (text_eq i k)) [
  | inl same ↦ rw same (hk, hv, h.2)
  | inr other ↦ rw other (h.0, h.1, AllText-assign k v ev hk hv h.2)
]

pub loads-dumps_event :
    (ev : Event) → IsDict (of_event ev) → AllText ev → loads (dumps ev) ≡ ok (obj (of_event ev))
unfolding IsValid
loads-dumps_event ev distinct good =
    rw (dumps-of_event ev) (loads-dumps (obj (of_event ev)) (distinct, AllText-AllFields ev good))

abbrev pub IsSound : Event → Type 0
IsSound ev = IsDict (of_event ev) × AllText ev

pub IsSound-assign :
    (k : Text) (v : Value) (ev : Event)
    → All IsScalar k
    → IsText v
    → IsSound ev
    → IsSound (assign k v ev)
IsSound-assign k v ev hk hv h = (IsDict-assign k v ev h.0, AllText-assign k v ev hk hv h.1)

or_text-IsText :
    (v : Text) (r : Result _) (w : Value) → All IsScalar v → or_text v r ≡ ok w → IsText w
or_text-IsText v (ok n) w h e = let same : num n ≡ w = cc in rw (← same) tt
or_text-IsText v (err value_error) w h e = let same : str v ≡ w = cc in rw (← same) h
or_text-IsText v (err e) w h bad = absurd (cc)

parse_value-IsText : (v : Text) (w : Value) → All IsScalar v → parse_value v ≡ ok w → IsText w
unfolding parse_value
parse_value-IsText v w h e = elim (Bool-cases (starts_with v (text "0x"))) [
  | inl hex ↦ elim (Result-cases (parse_int 16 v)) [
    | inl (n, read) ↦
        let number : ◌≡◌ {A = Result Value} (ok (num n)) (ok w) = rw (hex, read) at e in
        let same : num n ≡ w = cc in rw (← same) tt
    | inr (x, fails) ↦
        absurd (let bad : ◌≡◌ {A = Result Value} (err x) (ok w) = rw (hex, fails) at e in cc)
  ]
  | inr other ↦ or_text-IsText v (parse_int 10 v) w h (rw other at e)
]

parse_token-IsSound :
    (token : Text) (ev ev' : Event)
    → All IsScalar token
    → IsSound ev
    → parse_token token ev ≡ ok ev'
    → IsSound ev'
unfolding parse_token
parse_token-IsSound token ev ev' h sound e = elim (Bool-cases (contains b'=' token)) [
  | inl here ↦ elim (Result-cases (parse_value (behind b'=' token))) [
    | inl (v, read) ↦
        let k = before b'=' token in
        let assigned : ◌≡◌ {A = Result Event} (ok (assign k v ev)) (ok ev') =
          rw (here, read) at e in
        let same : assign k v ev ≡ ev' = cc in
        rw (← same) (
          IsSound-assign k v ev (All-before IsScalar b'=' token h)
            (parse_value-IsText (behind b'=' token) v (All-behind IsScalar b'=' token h) read)
            sound)
    | inr (x, fails) ↦
        absurd (let bad : ◌≡◌ {A = Result Event} (err x) (ok ev') = rw (here, fails) at e in cc)
  ]
  | inr absent ↦
      absurd (let bad : ◌≡◌ {A = Result Event} (err value_error) (ok ev') = rw absent at e in cc)
]

parse_tokens-IsSound :
    (tokens : List Text) (ev ev' : Event)
    → All (λ w. All IsScalar w) tokens
    → IsSound ev
    → parse_tokens tokens ev ≡ ok ev'
    → IsSound ev'
unfolding parse_tokens
parse_tokens-IsSound [] ev ev' h sound e = let same : ev ≡ ev' = cc in rw (← same) sound
parse_tokens-IsSound (t ∷ ts) ev ev' h sound e = elim (Result-cases (parse_token t ev)) [
  | inl (next, read) ↦
      parse_tokens-IsSound ts next ev' h.1 (parse_token-IsSound t ev next h.0 sound read)
        (rw read at e)
  | inr (x, fails) ↦
      absurd (let bad : ◌≡◌ {A = Result Event} (err x) (ok ev') = rw fails at e in cc)
]

pub parse_event-IsSound :
    (now line : Text) (ev : Event)
    → All IsScalar line
    → IsReal now
    → parse_event now line ≡ ok ev
    → IsSound ev
unfolding parse_event
parse_event-IsSound now line ev h real_now e =
    elim (Result-cases (parse_tokens (split (strip line)) [])) [
      | inl (ev₀, read) ↦
          let tokens = All-split IsScalar (strip line) (All-strip IsScalar line h) in
          let sound = parse_tokens-IsSound (split (strip line)) [] ev₀ tokens (tt, tt) read in
          let ev₁ = assign (text "source") (str (text "conveyor_node")) ev₀ in
          let assigned : ◌≡◌ {A = Result Event} (ok (assign (text "created_at") (real now) ev₁))
              (ok ev) =
            rw read at e in
          let same : assign (text "created_at") (real now) ev₁ ≡ ev = cc in
          rw (← same) (
            IsSound-assign (text "created_at") (real now) ev₁ (omega arith) real_now (
              IsSound-assign (text "source") (str (text "conveyor_node")) ev₀ (omega arith)
                (omega arith) sound))
      | inr (x, fails) ↦
          absurd (let bad : ◌≡◌ {A = Result Event} (err x) (ok ev) = rw fails at e in cc)
    ]
