-- ===== src/Web/Stream.antt =====
-- One call of `_serve_sse` of broker/conveyor_web.py from its snapshot on, among the other threads.
use embeded_convey_belt.Prelude.{
  ℕ, ◌≡◌, ◌∙◌, refl, ap, none, some, true, List, [], ◌∷◌, ◌++◌, append_assoc, ◌==◌, arith,
}
use embeded_convey_belt.Web.{Bytes, Hub, has, Action, joined, snapshot, join, step, run}
use embeded_convey_belt.Web.Delivery.{messages_to, IsWell, step-IsWell, frames, run-delivers}

module _ {E : Type 0} (json : E → Bytes) where
  -- What is written under `_state_lock` if `_current` is not empty.
  abbrev pub greeting : Hub E → List Bytes
  greeting hub = elim (snapshot json hub) [ none ↦ [] | some msg ↦ msg ∷ [] ]

  -- The handler writes the snapshot, other threads do `gap`, it puts its queue into `_clients`, and `more`
  -- follows, with its own turns. What it has written, without heartbeats, and the shared state. Writing the
  -- snapshot succeeds here; where it raises OSError, the handler returns before it has a queue.
  unfoldable pub serve_sse : List (Action E) → List (Action E) → Hub E → List Bytes × Hub E
  serve_sse gap more hub =
      let before = (run json gap hub).0 in
      let (after, out) = run json more (join json before) in
      (greeting hub ++ messages_to before.next out, after)

  run-IsWell :
      (actions : List (Action E)) (hub : Hub E) → IsWell hub → IsWell (run json actions hub).0
  unfolding run
  run-IsWell [] hub h = h
  run-IsWell (a ∷ more) hub h = run-IsWell more (step json a hub).0 (step-IsWell json a hub h)

  has-last : (c : ℕ) (cs : List ℕ) → has c (cs ++ c ∷ []) ≡ true
  has-last c [] = ground arith
  has-last c (d ∷ cs) = ground (arith, has-last c cs)

  -- The stream of one event-stream client that is never put out of `_clients`: the snapshot, followed by
  -- every event that is broadcast after its queue joined, in order, as far as they are not still in its
  -- queue. What is stored and broadcast between the snapshot and the joining is in neither part.
  pub serve_sse-misses :
      (gap more : List (Action E)) (hub : Hub E)
      → IsWell hub
      → has (run json gap hub).0.next (serve_sse gap more hub).1.clients ≡ true
      → (serve_sse gap more hub).0 ++ (serve_sse gap more hub).1.queues (run json gap hub).0.next
        ≡ greeting hub ++ frames json more
  unfolding serve_sse join
  serve_sse-misses gap more hub h stays =
      let before = (run json gap hub).0 in
      let i = before.next in
      let well : IsWell (join json before) =
        unfold step in step-IsWell json joined before (run-IsWell gap hub h) in
      let here = has-last i before.clients in
      let own : (i == i) ≡ true = ground arith in
      let delivered = run-delivers json more i (join json before) well here stays in
      append_assoc (greeting hub) (messages_to i (run json more (join json before)).1)
        ((run json more (join json before)).0.queues i)
      ∙ ap (λ l. greeting hub ++ l) (delivered ∙ rw own refl)
