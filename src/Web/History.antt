-- ===== src/Web/History.antt =====
-- The bounds of the shared state: the history is the newest events, and no queue outgrows its size.
use embeded_convey_belt.Prelude.{
  ℕ, zero, suc, ◌≡◌, ◌≤◌, refl, sym, ap, ◌∙◌, inl, inr, List, [], ◌∷◌, ◌++◌, take, length,
  length-append, leb, arith, Bool-cases,
}
use embeded_convey_belt.Web.{
  Bytes, max_history, max_size, Hub, update, put_all, Action, stored, broadcasted, joined, served,
  left_on_error, frame, store, broadcast, join, behind_first, taken, step, run,
}

-- The stored events in front of the earlier ones, the newest first.
abbrev pub recorded : {E : Type 0} → List (Action E) → List E → List E
recorded [] earlier = earlier
recorded (stored ev ∷ more) earlier = recorded more (ev ∷ earlier)
recorded (broadcasted ev ∷ more) earlier = recorded more earlier
recorded (joined ∷ more) earlier = recorded more earlier
recorded (served i ∷ more) earlier = recorded more earlier
recorded (left_on_error i ∷ more) earlier = recorded more earlier

pub take_all {ℓ} : {A : Type ℓ} (n : ℕ) (xs : List A) → length xs ≤ n → take n xs ≡ xs
take_all zero [] h = refl
take_all zero (x ∷ xs) h = absurd (omega arith)
take_all (suc n) [] h = refl
take_all (suc n) (x ∷ xs) h = ap (λ l. x ∷ l) (take_all n xs (omega arith))

pub take-take {ℓ} : {A : Type ℓ} (n m : ℕ) (xs : List A) → n ≤ m → take n (take m xs) ≡ take n xs
take-take zero m xs h = refl
take-take (suc n) zero xs h = absurd (omega arith)
take-take (suc n) (suc m) [] h = refl
take-take (suc n) (suc m) (x ∷ xs) h = ap (λ l. x ∷ l) (take-take n m xs (omega arith))

-- Every queue has room for its size at most.
abbrev pub IsBounded : {E : Type 0} → Hub E → Type 0
IsBounded hub = (i : ℕ) → length (hub.queues i) ≤ max_size

put_all-IsBounded :
    (msg : Bytes) (cs : List ℕ) (queues : ℕ → List Bytes)
    → ((i : ℕ) → length (queues i) ≤ max_size)
    → (i : ℕ) → length ((put_all msg cs queues).0 i) ≤ max_size
put_all-IsBounded msg [] queues h i = h i
put_all-IsBounded msg (c ∷ cs) queues h i = elim (Bool-cases (leb max_size (length (queues c)))) [
  | inl full ↦ rw full (put_all-IsBounded msg cs queues h i)
  | inr room ↦ rw room (
      put_all-IsBounded msg cs (update c (queues c ++ msg ∷ []) queues)
        (λ j. ground (arith, h j, room, length-append (queues c) (msg ∷ []))) i)
]

module _ {E : Type 0} (json : E → Bytes) where
  behind_first-shorter : (q : List Bytes) → length (behind_first json q) ≤ length q
  behind_first-shorter [] = omega arith
  behind_first-shorter (m ∷ ms) = omega arith

  taken-IsBounded : (j : ℕ) (hub : Hub E) → IsBounded hub → IsBounded (taken json j hub)
  taken-IsBounded j hub h i = ground (arith, behind_first-shorter (hub.queues j), h j, h i)

  -- Every action keeps the queues within their size.
  pub step-IsBounded : (a : Action E) (hub : Hub E) → IsBounded hub → IsBounded (step json a hub).0
  unfolding step store broadcast join
  step-IsBounded (stored ev) hub h i = h i
  step-IsBounded (broadcasted ev) hub h i =
      put_all-IsBounded (frame json ev) hub.clients hub.queues h i
  step-IsBounded joined hub h i = ground (arith, h i)
  step-IsBounded (served j) hub h i = taken-IsBounded j hub h i
  step-IsBounded (left_on_error j) hub h i = taken-IsBounded j hub h i

  history_run :
      (actions : List (Action E)) (hub : Hub E) (all : List E)
      → hub.history ≡ take max_history all
      → (run json actions hub).0.history ≡ take max_history (recorded actions all)
  unfolding run step store broadcast join
  history_run [] hub all h = h
  history_run (stored ev ∷ more) hub all h =
      history_run more (step json (stored ev) hub).0 (ev ∷ all) (
        ap (λ l. take max_history (ev ∷ l)) h
        ∙ ap (λ l. ev ∷ l) (take-take 199 max_history all (omega arith)))
  history_run (broadcasted ev ∷ more) hub all h =
      history_run more (step json (broadcasted ev) hub).0 all h
  history_run (joined ∷ more) hub all h = history_run more (step json joined hub).0 all h
  history_run (served i ∷ more) hub all h = history_run more (step json (served i) hub).0 all h
  history_run (left_on_error i ∷ more) hub all h =
      history_run more (step json (left_on_error i) hub).0 all h

  run-IsBounded :
      (actions : List (Action E)) (hub : Hub E) → IsBounded hub → IsBounded (run json actions hub).0
  unfolding run
  run-IsBounded [] hub h = h
  run-IsBounded (a ∷ more) hub h = run-IsBounded more (step json a hub).0 (step-IsBounded a hub h)

  -- After any sequence of actions, the history is the 200 newest stored events, the newest first, and
  -- no queue holds more than 64 messages; both for a history and queues that were within these bounds.
  pub run-history :
      (actions : List (Action E)) (hub : Hub E)
      → length hub.history ≤ max_history
      → IsBounded hub
      → ((run json actions hub).0.history ≡ take max_history (recorded actions hub.history))
        × IsBounded (run json actions hub).0
  run-history actions hub short bounded = (
    history_run actions hub hub.history (sym (take_all max_history hub.history short)),
    run-IsBounded actions hub bounded,
  )
