-- ===== src/Subscriber/Display/Stopped.antt =====
-- A message that ends the subscriber.
use embeded_convey_belt.Prelude.{
  ℕ, suc, ◌≡◌, ◌≢◌, inl, inr, refl, Option, none, some, List, [], ◌∷◌, ◌++◌,
}
use embeded_convey_belt.Py.{Exc, Result, err, attribute_error, Text, Result-cases}
use embeded_convey_belt.Py.Json.{Json, null, bool, obj, arr, Fields, dumps_json}
use embeded_convey_belt.Py.Json.Loads.{loads}
use embeded_convey_belt.Py.Json.Printed.{IsValid}
use embeded_convey_belt.Py.Json.RoundTrip.{loads-dumps}
use embeded_convey_belt.Subscriber.{Output, message, broker_error}
use embeded_convey_belt.Subscriber.Display.{value_line, line_of, print_line, display}

module _ (local : Text → Result Text) (float : Text → Text) (clock : ℕ → Text) where
  value_line-no_object :
      (now : Text) (v : Json)
      → ((fs : Fields) → v ≢ obj fs)
      → value_line local float now v ≡ err attribute_error
  value_line-no_object now (obj fs) h = absurd (h fs refl)
  value_line-no_object now null h = refl
  value_line-no_object now (bool b) h = refl
  value_line-no_object now (Json.num z) h = refl
  value_line-no_object now (Json.real r) h = refl
  value_line-no_object now (Json.str s) h = refl
  value_line-no_object now (arr xs) h = refl

  display-stops :
      (k : ℕ) (before after : List Output) (t p : Text)
      → ((now : Text) → line_of local float now p (loads p) ≡ err attribute_error)
      → (display local float clock k before).1 ≡ none
      → display local float clock k (before ++ message t p ∷ after)
        ≡ ((display local float clock k before).0, some attribute_error)
  unfolding display
  display-stops k [] after t p raises h = rw (raises (clock k)) refl
  display-stops k (message u q ∷ before) after t p raises h =
      elim (Result-cases (print_line (line_of local float (clock k) q (loads q)))) [
        | inl (line, e) ↦
            let later : (display local float clock (suc k) before).1 ≡ none = rw e at h in
            rw (e, display-stops (suc k) before after t p raises later) refl
        | inr (x, e) ↦ absurd (let bad : ◌≡◌ {A = Option Exc} (some x) none = rw e at h in cc)
      ]
  display-stops k (broker_error e ∷ before) after t p raises h =
      rw (display-stops (suc k) before after t p raises h) refl

  -- A message whose payload is the JSON of a value that is no object, behind messages that are all
  -- printed: it ends the program with an AttributeError, and nothing that comes later is printed.
  pub display-no_object :
      (k : ℕ) (before after : List Output) (t : Text) (v : Json)
      → IsValid v
      → ((fs : Fields) → v ≢ obj fs)
      → (display local float clock k before).1 ≡ none
      → display local float clock k (before ++ message t (dumps_json v) ∷ after)
        ≡ ((display local float clock k before).0, some attribute_error)
  display-no_object k before after t v valid other h =
      display-stops k before after t (dumps_json v)
        (λ now. rw (loads-dumps v valid) (value_line-no_object now v other)) h
