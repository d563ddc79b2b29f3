-- ===== src/Driver/Queue.antt =====
-- The event queue of conveyor_node.c: the section of `push_event` under `q_lock`, and `node_read`.
pub mod Refinement
use embeded_convey_belt.Prelude.{
  ℕ, ◌+◌, ◌%◌, Bool, Option, none, some, List, [], ◌∷◌, ◌++◌, length, ltb, ◌==◌, if◌then◌else◌,
}
use embeded_convey_belt.Py.{Text}
use embeded_convey_belt.Driver.{ConveyorEvent, format_event}

-- EVENT_Q_SIZE
abbrev pub event_q_size : ℕ
event_q_size = 32

pub record Ring : Type 0 where
  pub q : ℕ → ConveyorEvent
  pub q_head : ℕ
  pub q_tail : ℕ

abbrev pub queue_empty : Ring → Bool
queue_empty nd = nd.q_head == nd.q_tail

abbrev pub queue_full : Ring → Bool
queue_full nd = (nd.q_head + 1) % event_q_size == nd.q_tail

abbrev pub write_at : ℕ → ConveyorEvent → (ℕ → ConveyorEvent) → ℕ → ConveyorEvent
write_at i ev q j = if i == j then ev else q j

-- if (queue_full(nd)) nd->q_tail = ...
abbrev pub make_room : Ring → Ring
make_room nd = if queue_full nd then record nd { q_tail = (nd.q_tail + 1) % event_q_size } else nd

abbrev pub put_head : ConveyorEvent → Ring → Ring
put_head ev nd = record nd {
  q = write_at nd.q_head ev nd.q;
  q_head = (nd.q_head + 1) % event_q_size;
}

unfoldable pub push_event : ConveyorEvent → Ring → Ring
push_event ev nd = put_head ev (make_room nd)

-- What `read` answers: a line, no bytes for a count of 0, or an error code.
pub data Answer : Type 0 where
  line_read : Text → Answer
  no_bytes again invalid fault : Answer

-- A line that does not fit in the count, or cannot be copied, is refused when its event is out of the queue
-- already.
abbrev pub answer : ℕ → Bool → ConveyorEvent → Answer
answer count copied ev =
    if ltb count (length (format_event ev))
    then invalid
    else if copied
    then line_read (format_event ev)
    else fault

-- `node_read` with O_NONBLOCK; without it, the call waits while the queue is empty. `copied` says whether
-- copy_to_user takes the line.
unfoldable pub node_read : ℕ → Bool → Ring → Answer × Ring
node_read count copied nd =
    if count == 0 then (no_bytes, nd) else if queue_empty nd then (again, nd) else (
      answer count copied (nd.q nd.q_tail),
      record nd { q_tail = (nd.q_tail + 1) % event_q_size },
    )

-- What happens to the queue: the driver pushes an event, or a reader reads.
pub data Use : Type 0 where
  pushed : ConveyorEvent → Use
  reads : ℕ → Bool → Use

unfoldable pub use_all : List Use → Ring → List Answer × Ring
use_all [] nd = ([], nd)
use_all (pushed ev ∷ uses) nd = use_all uses (push_event ev nd)
use_all (reads count copied ∷ uses) nd =
    let (a, nd₁) = node_read count copied nd in
    let (as_read, nd₂) = use_all uses nd₁ in (a ∷ as_read, nd₂)
