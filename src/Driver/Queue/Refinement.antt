-- ===== src/Driver/Queue/Refinement.antt =====
-- The ring is a queue of the newest 31 events.
use embeded_convey_belt.Prelude.{
  ℕ, Bool, suc, ◌+◌, ◌%◌, ◌≡◌, ◌≤◌, ◌<◌, refl, ap, ◌∙◌, inl, inr, true, false, List, [], ◌∷◌, ◌++◌,
  length, length-append, ◌==◌, if◌then◌else◌, arith, Bool-cases,
}
use embeded_convey_belt.Driver.{ConveyorEvent}
use embeded_convey_belt.Driver.Queue.{
  Ring, queue_empty, queue_full, write_at, put_head, push_event, Answer, no_bytes, again, answer,
  node_read, Use, pushed, reads, use_all,
}

-- The abstract queue: a list, the oldest event first, of 31 events at most.
abbrev pub capacity : ℕ
capacity = 31

abbrev pub behind_oldest : List ConveyorEvent → List ConveyorEvent
behind_oldest [] = []
behind_oldest (ev ∷ evs) = evs

-- A full queue loses its oldest event to a new one.
abbrev pub enqueue : ConveyorEvent → List ConveyorEvent → List ConveyorEvent
enqueue ev evs = (if length evs == capacity then behind_oldest evs else evs) ++ ev ∷ []

abbrev pub dequeue : ℕ → Bool → List ConveyorEvent → Answer × List ConveyorEvent
dequeue count copied [] = (if count == 0 then no_bytes else again, [])
dequeue count copied (ev ∷ evs) =
    if count == 0 then (no_bytes, ev ∷ evs) else (answer count copied ev, evs)

abbrev pub queue_all : List Use → List ConveyorEvent → List Answer × List ConveyorEvent
queue_all [] evs = ([], evs)
queue_all (pushed ev ∷ uses) evs = queue_all uses (enqueue ev evs)
queue_all (reads count copied ∷ uses) evs =
    let (a, evs₁) = dequeue count copied evs in
    let (as_read, evs₂) = queue_all uses evs₁ in (a ∷ as_read, evs₂)

-- The cells from `t` on, around the ring, hold these events.
abbrev pub Cells : (ℕ → ConveyorEvent) → ℕ → List ConveyorEvent → Type 0
Cells q t [] = Unit
Cells q t (ev ∷ evs) = (q t ≡ ev) × Cells q ((t + 1) % 32) evs

pub record IsQueue (nd : Ring) (evs : List ConveyorEvent) : Type 0 where
  pub cells : Cells nd.q nd.q_tail evs
  pub in_range : nd.q_tail < 32
  pub head : nd.q_head ≡ (nd.q_tail + length evs) % 32
  pub bounded : length evs ≤ capacity

-- Writing behind the cells, as long as they do not fill the ring.
Cells-write_at :
    (q : ℕ → ConveyorEvent) (t h : ℕ) (ev : ConveyorEvent) (evs : List ConveyorEvent)
    → t < 32
    → h ≡ (t + length evs) % 32
    → length evs ≤ capacity
    → Cells q t evs
    → Cells (write_at h ev q) t (evs ++ ev ∷ [])
Cells-write_at q t h ev [] r e b c = (ground (arith, e), tt)
Cells-write_at q t h ev (x ∷ evs) r e b c =
    let other : (h == t) ≡ false = ground (arith, e) in
    (
      rw other (c.0),
      Cells-write_at q ((t + 1) % 32) h ev evs (omega arith) (omega (arith, e)) (omega arith) c.1,
    )

put_head-IsQueue :
    (ev : ConveyorEvent) (nd : Ring) (evs : List ConveyorEvent)
    → IsQueue nd evs
    → length evs < capacity
    → IsQueue (put_head ev nd) (evs ++ ev ∷ [])
put_head-IsQueue ev nd evs h room = record {
  cells = Cells-write_at nd.q nd.q_tail nd.q_head ev evs h.in_range h.head (omega arith) h.cells;
  in_range = h.in_range;
  head = omega (arith, h.head, length-append evs (ev ∷ []));
  bounded = omega (arith, length-append evs (ev ∷ []));
}

oldest_out :
    (nd : Ring) (evs : List ConveyorEvent)
    → IsQueue nd evs
    → 0 < length evs
    → IsQueue (record nd { q_tail = (nd.q_tail + 1) % 32 }) (behind_oldest evs)
oldest_out nd [] h some_there = absurd (omega arith)
oldest_out nd (ev ∷ evs) h some_there = record {
  cells = h.cells.1;
  in_range = omega arith;
  head = omega (arith, h.head, h.in_range);
  bounded = omega (arith, h.bounded);
}

length-behind_oldest :
    (evs : List ConveyorEvent) → 0 < length evs → suc (length (behind_oldest evs)) ≡ length evs
length-behind_oldest [] h = absurd (omega arith)
length-behind_oldest (ev ∷ evs) h = refl

push_event-IsQueue :
    (ev : ConveyorEvent) (nd : Ring) (evs : List ConveyorEvent)
    → IsQueue nd evs
    → IsQueue (push_event ev nd) (enqueue ev evs)
unfolding push_event
push_event-IsQueue ev nd evs h = elim (Bool-cases (length evs == capacity)) [
  | inl full ↦
      let crowded : queue_full nd ≡ true = ground (arith, h.head, h.in_range, full) in
      rw (crowded, full)
        (put_head-IsQueue ev _ (behind_oldest evs) (oldest_out nd evs h (ground (arith, full)))
          (ground (arith, full, length-behind_oldest evs)))
  | inr space ↦
      let roomy : queue_full nd ≡ false = ground (arith, h.head, h.in_range, h.bounded, space) in
      rw (roomy, space) (put_head-IsQueue ev nd evs h (ground (arith, h.bounded, space)))
]

node_read-IsQueue :
    (count : ℕ) (copied : Bool) (nd : Ring) (evs : List ConveyorEvent)
    → IsQueue nd evs
    → ((node_read count copied nd).0 ≡ (dequeue count copied evs).0)
      × IsQueue (node_read count copied nd).1 (dequeue count copied evs).1
unfolding node_read
node_read-IsQueue count copied nd [] h =
    let nothing : queue_empty nd ≡ true = ground (arith, h.head, h.in_range) in
    elim (Bool-cases (count == 0)) [
      | inl zero_count ↦ rw zero_count (refl, h)
      | inr some_count ↦ rw (some_count, nothing) (refl, h)
    ]
node_read-IsQueue count copied nd (ev ∷ evs) h =
    let filled : queue_empty nd ≡ false = ground (arith, h.head, h.in_range, h.bounded) in
    elim (Bool-cases (count == 0)) [
      | inl zero_count ↦ rw zero_count (refl, h)
      | inr some_count ↦
          rw (some_count, filled)
            (ap (answer count copied) (h.cells.0), oldest_out nd (ev ∷ evs) h (omega arith))
    ]

-- A ring that holds a queue, under any sequence of pushes and reads: every read answers as the abstract
-- queue does, in which a push on 31 events loses the oldest, and the ring holds that queue at the end.
pub use_all-queue_all :
    (uses : List Use) (nd : Ring) (evs : List ConveyorEvent)
    → IsQueue nd evs
    → ((use_all uses nd).0 ≡ (queue_all uses evs).0)
      × IsQueue (use_all uses nd).1 (queue_all uses evs).1
unfolding use_all
use_all-queue_all [] nd evs h = (refl, h)
use_all-queue_all (pushed ev ∷ uses) nd evs h =
    use_all-queue_all uses (push_event ev nd) (enqueue ev evs) (push_event-IsQueue ev nd evs h)
use_all-queue_all (reads count copied ∷ uses) nd evs h =
    let (same, h₁) = node_read-IsQueue count copied nd evs h in
    let (rest, h₂) =
      use_all-queue_all uses (node_read count copied nd).1 (dequeue count copied evs).1 h₁ in
    (
      ap (λ a. a ∷ (use_all uses (node_read count copied nd).1).0) same
          ∙ ap (λ l. (dequeue count copied evs).0 ∷ l) rest,
      h₂,
    )
