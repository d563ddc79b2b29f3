-- ===== src/Web/Dropped.antt =====
-- A client that a full queue has put out of `_clients`.
use embeded_convey_belt.Prelude.{
  ℕ, ◌≡◌, ◌<◌, refl, ap, ◌∙◌, inl, inr, true, false, List, [], ◌∷◌, ◌++◌, append_assoc, ◌==◌, arith,
  Bool-cases, ==_iff,
}
use embeded_convey_belt.Web.{
  Bytes, Hub, has, Action, stored, broadcasted, joined, served, left_on_error, frame, store,
  broadcast, join, step, run,
}
use embeded_convey_belt.Web.Queues.{put_all-other}
use embeded_convey_belt.Web.Delivery.{
  messages_to, messages_to-append, IsWell, step-IsWell, step_out, own_write, other_write,
}

-- The handler of the queue is still in its loop: it has not failed to write.
abbrev pub IsServing : {E : Type 0} → ℕ → List (Action E) → Type 0
IsServing i [] = Unit
IsServing i (left_on_error j ∷ more) = ((j == i) ≡ false) × IsServing i more
IsServing i (stored ev ∷ more) = IsServing i more
IsServing i (broadcasted ev ∷ more) = IsServing i more
IsServing i (joined ∷ more) = IsServing i more
IsServing i (served j ∷ more) = IsServing i more

module _ {E : Type 0} (json : E → Bytes) where
  step-leftover :
      (a : Action E) (i : ℕ) (hub : Hub E)
      → IsServing i (a ∷ [])
      → i < hub.next
      → has i hub.clients ≡ false
      → messages_to i (step json a hub).1 ++ (step json a hub).0.queues i ≡ hub.queues i
  unfolding step store broadcast join
  step-leftover (stored ev) i hub s old out = refl
  step-leftover (broadcasted ev) i hub s old out =
      (put_all-other (frame json ev) i hub.clients hub.queues out).0
  step-leftover joined i hub s old out =
      let other : (hub.next == i) ≡ false = ground arith in rw other refl
  step-leftover (served j) i hub s old out = elim (Bool-cases (j == i)) [
    | inl same ↦
        let e : j ≡ i = (==_iff j i).0 same in
        let self : (i == i) ≡ true = ground arith in rw (e, self) (own_write json i (hub.queues i))
    | inr other ↦ rw (other_write json i j (hub.queues j) other, other) refl
  ]
  step-leftover (left_on_error j) i hub s old out = rw (s.0) refl

  IsServing-first :
      (a : Action E) (more : List (Action E)) (i : ℕ)
      → IsServing i (a ∷ more)
      → IsServing i (a ∷ []) × IsServing i more
  IsServing-first (stored ev) more i s = (tt, s)
  IsServing-first (broadcasted ev) more i s = (tt, s)
  IsServing-first joined more i s = (tt, s)
  IsServing-first (served j) more i s = (tt, s)
  IsServing-first (left_on_error j) more i s = ((s.0, tt), s.1)

  -- A queue that `_clients` does not hold, of a handler that has not failed to write: over all later
  -- actions, what is written to it and what it still holds are what it held, so that it gets no message
  -- that is broadcast, and its handler writes only heartbeats once it is empty.
  pub run-leftover :
      (actions : List (Action E)) (i : ℕ) (hub : Hub E)
      → IsWell hub
      → IsServing i actions
      → i < hub.next
      → has i hub.clients ≡ false
      → messages_to i (run json actions hub).1 ++ (run json actions hub).0.queues i ≡ hub.queues i
  unfolding run
  run-leftover [] i hub h s old out = refl
  run-leftover (a ∷ more) i hub h s old out =
      let next_hub = (step json a hub).0 in
      let (s₁, s₂) = IsServing-first a more i s in
      let (out', old') = step_out json a i hub h old out in
      let rest = run-leftover more i next_hub (step-IsWell json a hub h) s₂ old' out' in
      let ws = (step json a hub).1 in
      let later = (run json more next_hub).1 in
      ap (λ l. l ++ (run json more next_hub).0.queues i) (messages_to-append i ws later)
      ∙ append_assoc (messages_to i ws) (messages_to i later) ((run json more next_hub).0.queues i)
      ∙ ap (λ l. messages_to i ws ++ l) rest
      ∙ step-leftover a i hub s₁ old out
