-- ===== src/Web/Delivery.antt =====
-- What the server-sent events of one client are.
use embeded_convey_belt.Prelude.{
  ℕ, ◌≡◌, ◌<◌, refl, sym, ap, ◌∙◌, inl, inr, Bool, true, false, ◌||◌, List, [], ◌∷◌, ◌++◌,
  append-nil, append_assoc, length, leb, ◌==◌, if◌then◌else◌, arith, Bool-cases, ==_iff,
}
use embeded_convey_belt.Web.{
  Bytes, max_size, Hub, has, put_all, Written, message_to, heartbeat_to, Action, stored,
  broadcasted, joined, served, left_on_error, frame, store, broadcast, join, to_write, behind_first,
  step, run,
}
use embeded_convey_belt.Web.Queues.{
  IsDistinct, has-remove, remove-IsDistinct, has-remove_all, remove_all-IsDistinct, put_all-client,
}

-- The messages among what was written to one client; heartbeats are none.
abbrev pub messages_to : ℕ → List Written → List Bytes
messages_to i [] = []
messages_to i (message_to j msg ∷ out) =
    let rest = messages_to i out in if j == i then msg ∷ rest else rest
messages_to i (heartbeat_to j ∷ out) = messages_to i out

pub messages_to-append :
    (i : ℕ) (xs ys : List Written) → messages_to i (xs ++ ys) ≡ messages_to i xs ++ messages_to i ys
messages_to-append i [] ys = refl
messages_to-append i (message_to j msg ∷ xs) ys = ground (arith, messages_to-append i xs ys)
messages_to-append i (heartbeat_to j ∷ xs) ys = messages_to-append i xs ys

has-last : (i c : ℕ) (cs : List ℕ) → has i (cs ++ c ∷ []) ≡ (has i cs || c == i)
has-last i c [] = ground arith
has-last i c (d ∷ cs) = ground (arith, has-last i c cs)

IsDistinct-last :
    (c : ℕ) (cs : List ℕ) → IsDistinct cs → has c cs ≡ false → IsDistinct (cs ++ c ∷ [])
IsDistinct-last c [] h new = (refl, tt)
IsDistinct-last c (d ∷ cs) h new =
    (ground (arith, has-last d c cs, h.0, new), IsDistinct-last c cs h.1 (ground (arith, new)))

-- A client stands once in `_clients`, and new queues are no clients yet.
pub record IsWell {E : Type 0} (hub : Hub E) : Type 0 where
  pub distinct : IsDistinct hub.clients
  pub known : (i : ℕ) → has i hub.clients ≡ true → i < hub.next

module _ {E : Type 0} (json : E → Bytes) where
  -- The messages that were broadcast.
  abbrev pub frames : List (Action E) → List Bytes
  frames [] = []
  frames (broadcasted ev ∷ more) = frame json ev ∷ frames more
  frames (stored ev ∷ more) = frames more
  frames (joined ∷ more) = frames more
  frames (served i ∷ more) = frames more
  frames (left_on_error i ∷ more) = frames more

  pub step-IsWell : (a : Action E) (hub : Hub E) → IsWell hub → IsWell (step json a hub).0
  unfolding step store broadcast join
  step-IsWell (stored ev) hub h = record { distinct = h.distinct; known = h.known }
  step-IsWell (broadcasted ev) hub h =
      let dead = (put_all (frame json ev) hub.clients hub.queues).1 in
      record {
        distinct = remove_all-IsDistinct dead hub.clients h.distinct;
        known = λ i m. h.known i (ground (arith, has-remove_all i dead hub.clients h.distinct, m));
      }
  step-IsWell joined hub h = record {
    distinct = IsDistinct-last hub.next hub.clients h.distinct (ground (arith, h.known hub.next));
    known = λ i m. ground (arith, has-last i hub.next hub.clients, m, h.known i);
  }
  step-IsWell (served i) hub h = record { distinct = h.distinct; known = h.known }
  step-IsWell (left_on_error i) hub h = record {
    distinct = remove-IsDistinct i hub.clients h.distinct;
    known = λ j m. h.known j (ground (arith, has-remove j i hub.clients h.distinct, m));
  }

  -- A queue that has left `_clients` does not come back.
  pub step_out :
      (a : Action E) (i : ℕ) (hub : Hub E)
      → IsWell hub
      → i < hub.next
      → has i hub.clients ≡ false
      → (has i (step json a hub).0.clients ≡ false) × (i < (step json a hub).0.next)
  unfolding step store broadcast join
  step_out (stored ev) i hub h old out = (out, old)
  step_out (broadcasted ev) i hub h old out =
      let dead = (put_all (frame json ev) hub.clients hub.queues).1 in
      (ground (arith, has-remove_all i dead hub.clients h.distinct, out), old)
  step_out joined i hub h old out =
      (ground (arith, has-last i hub.next hub.clients, out), omega arith)
  step_out (served j) i hub h old out = (out, old)
  step_out (left_on_error j) i hub h old out =
      (ground (arith, has-remove i j hub.clients h.distinct, out), old)

  pub older : (a : Action E) (i : ℕ) (hub : Hub E) → i < hub.next → i < (step json a hub).0.next
  unfolding step store broadcast join
  older (stored ev) i hub h = h
  older (broadcasted ev) i hub h = h
  older joined i hub h = omega arith
  older (served j) i hub h = h
  older (left_on_error j) i hub h = h

  pub run_out :
      (actions : List (Action E)) (i : ℕ) (hub : Hub E)
      → IsWell hub
      → i < hub.next
      → has i hub.clients ≡ false
      → has i (run json actions hub).0.clients ≡ false
  unfolding run
  run_out [] i hub h old out = out
  run_out (a ∷ more) i hub h old out =
      let (out', old') = step_out a i hub h old out in
      run_out more i (step json a hub).0 (step-IsWell a hub h) old' out'

  pub own_write :
      (i : ℕ) (q : List Bytes) → messages_to i (to_write json i q ∷ []) ++ behind_first json q ≡ q
  own_write i [] = refl
  own_write i (m ∷ ms) = ground arith

  pub other_write :
      (i j : ℕ) (q : List Bytes) → (j == i) ≡ false → messages_to i (to_write json j q ∷ []) ≡ []
  other_write i j [] h = refl
  other_write i j (m ∷ ms) h = rw h refl

  frames_first :
      (a : Action E) (more : List (Action E)) → frames (a ∷ more) ≡ frames (a ∷ []) ++ frames more
  frames_first (stored ev) more = refl
  frames_first (broadcasted ev) more = refl
  frames_first joined more = refl
  frames_first (served i) more = refl
  frames_first (left_on_error i) more = refl

  step-delivers :
      (a : Action E) (i : ℕ) (hub : Hub E)
      → IsWell hub
      → has i hub.clients ≡ true
      → has i (step json a hub).0.clients ≡ true
      → messages_to i (step json a hub).1 ++ (step json a hub).0.queues i
        ≡ hub.queues i ++ frames (a ∷ [])
  unfolding step store broadcast join
  step-delivers (stored ev) i hub h here later = sym (append-nil (hub.queues i))
  step-delivers (broadcasted ev) i hub h here later =
      let (put, dead) = put_all-client (frame json ev) i hub.clients hub.queues h.distinct here in
      let room : leb max_size (length (hub.queues i)) ≡ false = ground (
        arith,
        has-remove_all i (put_all (frame json ev) hub.clients hub.queues).1 hub.clients h.distinct,
        later,
        here,
        dead,
      ) in
      rw room at put
  step-delivers joined i hub h here later =
      let old : (hub.next == i) ≡ false = ground (arith, h.known i here) in
      rw old (sym (append-nil (hub.queues i)))
  step-delivers (served j) i hub h here later = elim (Bool-cases (j == i)) [
    | inl same ↦
        let e : j ≡ i = (==_iff j i).0 same in
        let self : (i == i) ≡ true = ground arith in
        rw (e, self) (own_write i (hub.queues i) ∙ sym (append-nil (hub.queues i)))
    | inr other ↦ rw (other_write i j (hub.queues j) other, other) (sym (append-nil (hub.queues i)))
  ]
  step-delivers (left_on_error j) i hub h here later =
      let other : (j == i) ≡ false = ground (arith, has-remove i j hub.clients h.distinct, later) in
      rw other (sym (append-nil (hub.queues i)))

  -- Over any sequence of actions, for a client of `_clients` that is still one at the end: the messages
  -- written to it, followed by those that its queue still holds, are those that its queue held at the
  -- start, followed by all that were broadcast; none is lost or doubled, and their order is kept.
  pub run-delivers :
      (actions : List (Action E)) (i : ℕ) (hub : Hub E)
      → IsWell hub
      → has i hub.clients ≡ true
      → has i (run json actions hub).0.clients ≡ true
      → messages_to i (run json actions hub).1 ++ (run json actions hub).0.queues i
        ≡ hub.queues i ++ frames actions
  unfolding run
  run-delivers [] i hub h here later = sym (append-nil (hub.queues i))
  run-delivers (a ∷ more) i hub h here later =
      let next_hub = (step json a hub).0 in
      let well = step-IsWell a hub h in
      elim (Bool-cases (has i next_hub.clients)) [
        | inl stays ↦
            let first = step-delivers a i hub h here stays in
            let rest = run-delivers more i next_hub well stays later in
            let out = (step json a hub).1 in
            let outs = (run json more next_hub).1 in
            ap (λ l. l ++ (run json more next_hub).0.queues i) (messages_to-append i out outs)
            ∙ append_assoc (messages_to i out) (messages_to i outs)
                ((run json more next_hub).0.queues i)
            ∙ ap (λ l. messages_to i out ++ l) rest
            ∙ sym (append_assoc (messages_to i out) (next_hub.queues i) (frames more))
            ∙ ap (λ l. l ++ frames more) first
            ∙ append_assoc (hub.queues i) (frames (a ∷ [])) (frames more)
            ∙ ap (λ l. hub.queues i ++ l) (sym (frames_first a more))
        | inr out ↦
            let gone = run_out more i next_hub well (older a i hub (h.known i here)) out in
            absurd (let bad : ◌≡◌ {A = Bool} false true = sym gone ∙ later in cc)
      ]
