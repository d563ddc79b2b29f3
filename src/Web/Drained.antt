-- ===== src/Web/Drained.antt =====
-- A handler that gets its turns writes all that its queue holds.
use embeded_convey_belt.Prelude.{
  ℕ, ◌+◌, ◌-◌, ◌≤◌, ◌<◌, ◌≡◌, ◌∙◌, refl, sym, ap, inl, inr, true, false, List, [], ◌∷◌, ◌++◌,
  append-nil, append_assoc, length, ◌==◌, if◌then◌else◌, arith, Bool-cases, ==_iff,
}
use embeded_convey_belt.Web.{
  Bytes, Hub, Written, Action, stored, broadcasted, joined, served, left_on_error, store, join,
  behind_first, step, run,
}
use embeded_convey_belt.Web.Delivery.{
  messages_to, messages_to-append, older, own_write, other_write,
}

-- The turns of handler i.
abbrev pub turns : {E : Type 0} → ℕ → List (Action E) → ℕ
turns i [] = 0
turns i (served j ∷ more) = (if j == i then 1 else 0) + turns i more
turns i (stored ev ∷ more) = turns i more
turns i (broadcasted ev ∷ more) = turns i more
turns i (joined ∷ more) = turns i more
turns i (left_on_error j ∷ more) = turns i more

-- Nothing is broadcast, and the client of handler i stays.
abbrev pub IsQuiet : {E : Type 0} → ℕ → List (Action E) → Type 0
IsQuiet i [] = Unit
IsQuiet i (broadcasted ev ∷ more) = ⊥
IsQuiet i (left_on_error j ∷ more) = ((j == i) ≡ false) × IsQuiet i more
IsQuiet i (stored ev ∷ more) = IsQuiet i more
IsQuiet i (joined ∷ more) = IsQuiet i more
IsQuiet i (served j ∷ more) = IsQuiet i more

behind_first-length :
    {E : Type 0} (json : E → Bytes) (q : List Bytes) → length (behind_first json q) ≡ length q - 1
behind_first-length json [] = refl
behind_first-length json (m ∷ ms) = omega arith

module _ {E : Type 0} (json : E → Bytes) where
  -- What is written and what is left make up the queue, which has lost one message for each turn.
  abbrev Drains : ℕ → ℕ → List Bytes → List Written → Hub E → Type 0
  Drains i n q out hub =
      (messages_to i out ++ hub.queues i ≡ q) × (length (hub.queues i) ≤ length q - n)

  step-Drains :
      (a : Action E) (i : ℕ) (hub : Hub E)
      → i < hub.next
      → IsQuiet i (a ∷ [])
      → Drains i (turns i (a ∷ [])) (hub.queues i) (step json a hub).1 (step json a hub).0
  unfolding step store join
  step-Drains (stored ev) i hub old quiet = (refl, omega arith)
  step-Drains (broadcasted ev) i hub old quiet = absurd quiet
  step-Drains joined i hub old quiet =
      let other : (hub.next == i) ≡ false = ground arith in rw other (refl, omega arith)
  step-Drains (served j) i hub old quiet = elim (Bool-cases (j == i)) [
    | inl same ↦
        let e : j ≡ i = (==_iff j i).0 same in
        let self : (i == i) ≡ true = ground arith in
        rw (e, self)
          (own_write json i (hub.queues i), omega (arith, behind_first-length json (hub.queues i)))
    | inr other ↦ rw (other_write json i j (hub.queues j) other, other) (refl, omega arith)
  ]
  step-Drains (left_on_error j) i hub old (other, _) = rw other (refl, omega arith)

  IsQuiet-first :
      (a : Action E) (more : List (Action E)) (i : ℕ)
      → IsQuiet i (a ∷ more)
      → IsQuiet i (a ∷ []) × IsQuiet i more
  IsQuiet-first (stored ev) more i q = (tt, q)
  IsQuiet-first (broadcasted ev) more i q = absurd q
  IsQuiet-first joined more i q = (tt, q)
  IsQuiet-first (served j) more i q = (tt, q)
  IsQuiet-first (left_on_error j) more i q = ((q.0, tt), q.1)

  turns_first :
      (a : Action E) (more : List (Action E)) (i : ℕ)
      → turns i (a ∷ more) ≡ turns i (a ∷ []) + turns i more
  turns_first (stored ev) more i = omega arith
  turns_first (broadcasted ev) more i = omega arith
  turns_first joined more i = omega arith
  turns_first (served j) more i = omega arith
  turns_first (left_on_error j) more i = omega arith

  run-Drains :
      (actions : List (Action E)) (i : ℕ) (hub : Hub E)
      → i < hub.next
      → IsQuiet i actions
      → Drains i (turns i actions) (hub.queues i) (run json actions hub).1 (run json actions hub).0
  unfolding run
  run-Drains [] i hub old quiet = (refl, omega arith)
  run-Drains (a ∷ more) i hub old quiet =
      let (quiet₁, quiet₂) = IsQuiet-first a more i quiet in
      let (split, shorter) = step-Drains a i hub old quiet₁ in
      let next_hub = (step json a hub).0 in
      let (rest, left) = run-Drains more i next_hub (older json a i hub old) quiet₂ in
      let ws = (step json a hub).1 in
      let later = (run json more next_hub).1 in
      (
        ap (λ l. l ++ (run json more next_hub).0.queues i) (messages_to-append i ws later)
            ∙ append_assoc (messages_to i ws) (messages_to i later)
                ((run json more next_hub).0.queues i)
            ∙ ap (λ l. messages_to i ws ++ l) rest
            ∙ split,
        omega (arith, turns_first a more i),
      )

  empty : (q : List Bytes) → length q ≤ 0 → q ≡ []
  empty [] h = refl
  empty (m ∷ ms) h = absurd (omega arith)

  -- A handler that gets as many turns as its queue holds messages, in any order with the turns of other
  -- handlers, new clients and stored events, while nothing is broadcast and its client stays: all the
  -- messages of its queue are written, in order, and the queue is empty.
  pub run-drains :
      (actions : List (Action E)) (i : ℕ) (hub : Hub E)
      → i < hub.next
      → IsQuiet i actions
      → length (hub.queues i) ≤ turns i actions
      → (messages_to i (run json actions hub).1 ≡ hub.queues i)
        × ((run json actions hub).0.queues i ≡ [])
  run-drains actions i hub old quiet enough =
      let (split, shorter) = run-Drains actions i hub old quiet in
      let gone = empty ((run json actions hub).0.queues i) (omega arith) in
      (
        sym (append-nil (messages_to i (run json actions hub).1))
            ∙ ap (λ l. messages_to i (run json actions hub).1 ++ l) (sym gone)
            ∙ split,
        gone,
      )
