-- ===== src/Web/Examples.antt =====
-- Two clients of the web server, and one that was dropped.
use embeded_convey_belt.Prelude.{ℕ, ◌≡◌, refl, none, List, [], ◌∷◌, ◌++◌, take, arith}
use embeded_convey_belt.Web.{
  Bytes, max_history, Hub, Action, stored, broadcasted, served, frame, store, broadcast, step, run,
  join,
}
use embeded_convey_belt.Web.Delivery.{messages_to, IsWell, run-delivers}
use embeded_convey_belt.Web.Dropped.{run-leftover}
use embeded_convey_belt.Web.Drained.{run-drains}
use embeded_convey_belt.Web.Stream.{serve_sse, serve_sse-misses}
use embeded_convey_belt.Web.History.{IsBounded, run-history}

-- An event by its one byte.
abbrev byte_of : ℕ → Bytes
byte_of n = n ∷ []

-- Queue 0 has been dropped, and queue 1 is a client.
abbrev hub : Hub ℕ
hub = record { current = none; history = []; queues = λ i. []; next = 2; clients = 1 ∷ [] }

hub-IsWell : IsWell hub
hub-IsWell = record { distinct = (refl, tt); known = λ i h. ground (arith, h) }

abbrev actions : List (Action ℕ)
actions = stored 65 ∷ broadcasted 65 ∷ served 1 ∷ served 0 ∷ stored 66 ∷ broadcasted 66 ∷ []

run-delivers_example :
    messages_to 1 (run byte_of actions hub).1 ++ (run byte_of actions hub).0.queues 1
    ≡ frame byte_of 65 ∷ frame byte_of 66 ∷ []
unfolding run step store broadcast
run-delivers_example = run-delivers byte_of actions 1 hub hub-IsWell refl refl

run-leftover_example :
    messages_to 0 (run byte_of actions hub).1 ++ (run byte_of actions hub).0.queues 0 ≡ []
run-leftover_example = run-leftover byte_of actions 0 hub hub-IsWell tt (omega arith) refl

run-history_example :
    ((run byte_of actions hub).0.history ≡ take max_history (66 ∷ 65 ∷ []))
    × IsBounded (run byte_of actions hub).0
run-history_example = run-history byte_of actions hub (omega arith) (λ i. omega arith)

-- Two messages wait for handler 1, which takes its turns between those of handler 0.
abbrev waiting : Hub ℕ
waiting = record {
  current = none;
  history = [];
  queues = λ i. (65 ∷ []) ∷ (66 ∷ []) ∷ [];
  next = 2;
  clients = 1 ∷ [];
}

run-drains_example :
    (messages_to 1 (run byte_of (served 1 ∷ served 0 ∷ stored 67 ∷ served 1 ∷ []) waiting).1
      ≡ (65 ∷ []) ∷ (66 ∷ []) ∷ [])
    × ((run byte_of (served 1 ∷ served 0 ∷ stored 67 ∷ served 1 ∷ []) waiting).0.queues 1 ≡ [])
run-drains_example =
    run-drains byte_of (served 1 ∷ served 0 ∷ stored 67 ∷ served 1 ∷ []) 1 waiting (omega arith) tt
      (omega arith)

-- An event comes between the snapshot and the joining, and another one later.
serve_sse-misses_example :
    (serve_sse byte_of
        (stored 66 ∷ broadcasted 66 ∷ [])
        (stored 67 ∷ broadcasted 67 ∷ served 2 ∷ [])
        (store byte_of 65 hub)).0
      ++ (serve_sse byte_of
            (stored 66 ∷ broadcasted 66 ∷ [])
            (stored 67 ∷ broadcasted 67 ∷ served 2 ∷ [])
            (store byte_of 65 hub)).1.queues
          2
    ≡ frame byte_of 65 ∷ frame byte_of 67 ∷ []
unfolding run step store broadcast join serve_sse
serve_sse-misses_example =
    serve_sse-misses byte_of (stored 66 ∷ broadcasted 66 ∷ [])
      (stored 67 ∷ broadcasted 67 ∷ served 2 ∷ []) (store byte_of 65 hub)
      (record { distinct = hub-IsWell.distinct; known = hub-IsWell.known }) refl
