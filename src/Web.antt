-- ===== src/Web.antt =====
-- broker/conveyor_web.py: the state that the MQTT reader and the HTTP handlers share, and each section
-- of code that a lock makes atomic. An event is of any type `E`, and `json` gives the bytes of
-- `json.dumps(ev, separators=(",", ":"))`, since the server does not look into an event.
pub mod Queues
pub mod Delivery
pub mod Dropped
pub mod Drained
pub mod Stream
pub mod History
pub mod Routes
pub mod Reader
pub mod Convert
pub mod Page
mod Examples
use embeded_convey_belt.Prelude.{
  ℕ, suc, ◌+◌, Option, none, some, Bool, true, false, ◌||◌, List, [], ◌∷◌, ◌++◌, take, length, leb,
  ◌==◌, if◌then◌else◌,
}
use embeded_convey_belt.Py.{text}

abbrev pub Bytes : Type 0
Bytes = List ℕ

-- MAX_HISTORY
abbrev pub max_history : ℕ
max_history = 200

-- queue.Queue(maxsize=64)
abbrev pub max_size : ℕ
max_size = 64

-- The queue objects by number: `next` is the number of the next one, and `clients` names those that
-- `_clients` holds. A handler keeps its queue when `_clients` has lost it. `current` is `none` while
-- the dictionary is empty.
pub record Hub (E : Type 0) : Type 0 where
  pub current : Option E
  pub history : List E
  pub queues : ℕ → List Bytes
  pub next : ℕ
  pub clients : List ℕ

abbrev pub update : ℕ → List Bytes → (ℕ → List Bytes) → ℕ → List Bytes
update i q queues j = if i == j then q else queues j

-- i in clients
abbrev pub has : ℕ → List ℕ → Bool
has i [] = false
has i (c ∷ cs) = c == i || has i cs

-- clients.remove(i), where i need not be there
abbrev pub remove : ℕ → List ℕ → List ℕ
remove i [] = []
remove i (c ∷ cs) = if c == i then cs else c ∷ remove i cs

-- `q.put_nowait(msg)` on every client: the queues behind it, and those that were full.
abbrev pub put_all : Bytes → List ℕ → (ℕ → List Bytes) → (ℕ → List Bytes) × List ℕ
put_all msg [] queues = (queues, [])
put_all msg (c ∷ cs) queues =
    let skipped = put_all msg cs queues in
    let offered = put_all msg cs (update c (queues c ++ msg ∷ []) queues) in
    if leb max_size (length (queues c)) then (skipped.0, c ∷ skipped.1) else offered

-- for q in dead: _clients.remove(q)
abbrev pub remove_all : List ℕ → List ℕ → List ℕ
remove_all [] cs = cs
remove_all (d ∷ dead) cs = remove_all dead (remove d cs)

-- What the HTTP handlers write: a message of its queue, or a heartbeat.
pub data Written : Type 0 where
  message_to : ℕ → Bytes → Written
  heartbeat_to : ℕ → Written

-- A section of the code that runs by itself: the reader stores an event, or broadcasts one; a handler
-- joins with a queue of its own, writes once, or fails to write and leaves.
pub data Action (E : Type 0) : Type 0 where
  stored broadcasted : E → Action E
  joined : Action E
  served left_on_error : ℕ → Action E

module _ {E : Type 0} (json : E → Bytes) where
  -- "data: " + json.dumps(ev) + "\n\n"
  abbrev pub frame : E → Bytes
  frame ev = text "data: " ++ (json ev ++ 10 ∷ 10 ∷ [])

  -- The section under `_state_lock` in `_mqtt_reader`.
  unfoldable pub store : E → Hub E → Hub E
  store ev hub = record hub { current = some ev; history = take max_history (ev ∷ hub.history) }

  -- `_broadcast`
  unfoldable pub broadcast : E → Hub E → Hub E
  broadcast ev hub =
      let (queues, dead) = put_all (frame ev) hub.clients hub.queues in
      record hub { queues = queues; clients = remove_all dead hub.clients }

  -- The snapshot that `_serve_sse` writes first.
  abbrev pub snapshot : Hub E → Option Bytes
  snapshot hub = elim hub.current [ none ↦ none | some ev ↦ some (frame ev) ]

  -- A new queue in `_clients`.
  unfoldable pub join : Hub E → Hub E
  join hub = record hub {
    queues = update hub.next [] hub.queues;
    next = suc hub.next;
    clients = hub.clients ++ hub.next ∷ [];
  }

  -- What `q.get(timeout=HEARTBEAT_SEC)` gives the handler to write.
  abbrev pub to_write : ℕ → List Bytes → Written
  to_write i [] = heartbeat_to i
  to_write i (msg ∷ msgs) = message_to i msg

  abbrev pub behind_first : List Bytes → List Bytes
  behind_first [] = []
  behind_first (msg ∷ msgs) = msgs

  abbrev pub taken : ℕ → Hub E → Hub E
  taken i hub = record hub { queues = update i (behind_first (hub.queues i)) hub.queues }

  -- One round of the loop of `_serve_sse`, with the `finally` part if writing raises OSError.
  unfoldable pub step : Action E → Hub E → Hub E × List Written
  step (stored ev) hub = (store ev hub, [])
  step (broadcasted ev) hub = (broadcast ev hub, [])
  step joined hub = (join hub, [])
  step (served i) hub = (taken i hub, to_write i (hub.queues i) ∷ [])
  step (left_on_error i) hub = (record (taken i hub) { clients = remove i hub.clients }, [])

  unfoldable pub run : List (Action E) → Hub E → Hub E × List Written
  run [] hub = (hub, [])
  run (a ∷ more) hub =
      let (hub₁, out) = step a hub in let (hub₂, outs) = run more hub₁ in (hub₂, out ++ outs)
