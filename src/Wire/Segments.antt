-- ===== src/Wire/Segments.antt =====
-- `recvn` does not depend on how the bytes are cut into segments.
use embeded_convey_belt.Prelude.{
  ℕ, zero, suc, Option, ◌+◌, ◌-◌, ◌≤◌, ◌<◌, ◌≡◌, ◌∙◌, refl, sym, ap, List, [], ◌∷◌, ◌++◌, arith,
  length, take, drop, length-append, length-take, append-nil, lt→ltb, le→ltb,
}
use embeded_convey_belt.Py.{Exc, Result, ok, err, timeout, os_error}
use embeded_convey_belt.Net.{Net, Arrival, chunk, silence, reset, recv, continue, ◌>>=◌}
use embeded_convey_belt.Net.Stream.{
  Item, byte, bytes, stream, stream-put_back, bytes-take-drop, onto, onto-onto, onto-nil,
  take_bytes, take_bytes-bytes, take_bytes_all,
}
use embeded_convey_belt.Wire.Receive.{received, recvn, recvn_loop}

-- The socket after some reading: the rest of its stream is `s`, and nothing was sent.
pub record After (before : Net) (s : List Item) (net : Net) : Type 0 where
  pub left : stream net.incoming ≡ s
  pub outcomes : net.outcomes ≡ before.outcomes
  pub sent : net.sent ≡ before.sent

-- What one `recv(n)` can do, by the byte view.
data Received (n : ℕ) (net : Net) : Type 0 where
  piece :
      (x : ℕ) (xs : List ℕ) (net' : Net)
      → recv n net ≡ (ok (x ∷ xs), net')
      → length (x ∷ xs) ≤ n
      → stream net.incoming ≡ bytes (x ∷ xs) (stream net'.incoming)
      → After net (stream net'.incoming) net'
      → Received n net
  ended :
      (net' : Net)
      → recv n net ≡ (ok [], net')
      → stream net.incoming ≡ []
      → After net [] net'
      → Received n net
  failed :
      (e : Exc) (s : List Item) (net' : Net)
      → recv n net ≡ (err e, net')
      → ((k : ℕ) → take_bytes (suc k) (stream net.incoming) ≡ (err e, s))
      → After net s net'
      → Received n net

recv_cases :
    (n : ℕ) (inc : List Arrival) (outs : List (Option ℕ)) (sent : List ℕ)
    → Received (suc n) (record { incoming = inc; outcomes = outs; sent = sent })
unfolding recv stream
recv_cases n [] outs sent = ended _ refl refl (record { left = refl; outcomes = refl; sent = refl })
recv_cases n (chunk b bs ∷ more) outs sent =
    piece b (take n bs) _ refl (omega (arith, length-take {0} n bs))
      (ap (λ l. byte b ∷ l)
        (sym (bytes-take-drop n bs (stream more))
          ∙ ap (bytes (take n bs)) (sym (stream-put_back (drop n bs) more))))
      (record { left = refl; outcomes = refl; sent = refl })
recv_cases n (silence ∷ more) outs sent =
    failed timeout (stream more) _ refl (λ k. refl)
      (record { left = refl; outcomes = refl; sent = refl })
recv_cases n (reset ∷ more) outs sent =
    failed os_error [] _ refl (λ k. refl) (record { left = refl; outcomes = refl; sent = refl })

pub After-trans : {a b c : Net} {s t : List Item} → After a s b → After b t c → After a t c
After-trans h k = record {
  left = k.left;
  outcomes = k.outcomes ∙ h.outcomes;
  sent = k.sent ∙ h.sent;
}

-- A round of the loop that still wants `suc k` bytes.
recvn_loop_round :
    (fuel n k : ℕ) (buf : List ℕ) (net : Net) {r : Result (List ℕ)} {net' : Net}
    → n ≡ length buf + suc k
    → recv (suc k) net ≡ (r, net')
    → recvn_loop (suc fuel) n buf net
      ≡ continue r (λ piece. received piece >>= (λ got. recvn_loop fuel n (buf ++ got))) net'
unfolding recvn_loop
recvn_loop_round fuel n k buf net e got =
    let size : n - length buf ≡ suc k = omega arith in
    rw (lt→ltb (length buf) n (omega arith), size, got)

-- The outcome of reading k bytes behind those of `buf`, as the byte view has it.
abbrev Reads : List ℕ → ℕ → Net → Result (List ℕ) × Net → Type 0
Reads buf k net out =
    (out.0 ≡ onto buf (take_bytes k (stream net.incoming)).0)
    × After net (take_bytes k (stream net.incoming)).1 out.1

take_bytes_cut :
    (n : ℕ) (xs : List ℕ) (m : ℕ) {s : List Item} (s' : List Item)
    → n ≡ length xs + m
    → s ≡ bytes xs s'
    → ((take_bytes n s).0 ≡ onto xs (take_bytes m s').0)
      × ((take_bytes n s).1 ≡ (take_bytes m s').1)
take_bytes_cut n xs m s' size cut = rw (size, cut) (take_bytes-bytes xs m s')

-- The induction step, by what `recv` did.
Reads-round :
    (fuel n k : ℕ) (buf : List ℕ) (net : Net)
    → n ≡ length buf + suc k
    → ((got : List ℕ) (m : ℕ) (net' : Net)
        → n ≡ length (buf ++ got) + m
        → m ≤ k
        → Reads (buf ++ got) m net' (recvn_loop fuel n (buf ++ got) net'))
    → Received (suc k) net
    → Reads buf (suc k) net (recvn_loop (suc fuel) n buf net)
Reads-round fuel n k buf net e ih (ended net' got none_left after) =
    rw (recvn_loop_round fuel n k buf net e got, none_left) (unfold received in (refl, after))
Reads-round fuel n k buf net e ih (failed x s net' got same after) =
    rw (recvn_loop_round fuel n k buf net e got, same k) (refl, after)
Reads-round fuel n k buf net e ih (piece x xs net' got small cut after) =
    let m = k - length xs in
    let (out, after') =
      ih (x ∷ xs) m net' (omega (arith, length-append {0} buf (x ∷ xs))) (omega arith) in
    let (same, rest) = take_bytes_cut (suc k) (x ∷ xs) m _ (omega arith) cut in
    rw (recvn_loop_round fuel n k buf net e got, same, rest)
      (unfold received in
        (
          out ∙ sym (onto-onto buf (x ∷ xs) (take_bytes m (stream net'.incoming)).0),
          After-trans after after',
        ))

-- A loop with `buf` read and k bytes to go.
recvn_loop-take_bytes :
    (fuel n k : ℕ) (buf : List ℕ) (net : Net)
    → n ≡ length buf + k
    → k < fuel
    → Reads buf k net (recvn_loop fuel n buf net)
unfolding recvn_loop
recvn_loop-take_bytes zero n k buf net e h = absurd (omega arith)
recvn_loop-take_bytes (suc fuel) n zero buf net e h =
    rw (le→ltb (length buf) n (omega arith))
      (ap ok (sym (append-nil buf)), record { left = refl; outcomes = refl; sent = refl })
recvn_loop-take_bytes (suc fuel) n (suc k) buf net e h =
    Reads-round fuel n k buf net e
      (λ got m net' e' small. recvn_loop-take_bytes fuel n m (buf ++ got) net' e' (omega arith))
      (recv_cases k net.incoming net.outcomes net.sent)

-- `recvn` reads what the byte view says, whatever the segments, and sends nothing.
pub recvn-take_bytes :
    (n : ℕ) (net : Net)
    → ((recvn n net).0 ≡ (take_bytes n (stream net.incoming)).0)
      × After net (take_bytes n (stream net.incoming)).1 (recvn n net).1
unfolding recvn
recvn-take_bytes n net =
    let (same, after) = recvn_loop-take_bytes (suc n) n n [] net (omega arith) (omega arith) in
    (same ∙ sym (onto-nil (take_bytes n (stream net.incoming)).0), after)

-- Bytes that are there are read, in whatever segments, and what follows them is left.
pub recvn-bytes :
    (xs : List ℕ) (s : List Item) (net : Net)
    → stream net.incoming ≡ bytes xs s
    → (net' : Net) × (recvn (length xs) net ≡ (ok xs, net')) × After net s net'
recvn-bytes xs s net e =
    let (same, after) = recvn-take_bytes (length xs) net in
    let whole : take_bytes (length xs) (stream net.incoming) ≡ (ok xs, s) =
      rw e (take_bytes_all xs s) in
    (
      (recvn (length xs) net).1,
      ap (λ r. (r, (recvn (length xs) net).1)) (same ∙ ap (λ p. p.0) whole),
      rw whole at after,
    )

-- A failure that the byte view shows.
pub recvn_fails :
    (n : ℕ) (x : Exc) (s : List Item) (net : Net)
    → take_bytes n (stream net.incoming) ≡ (err x, s)
    → (net' : Net) × (recvn n net ≡ (err x, net')) × After net s net'
recvn_fails n x s net e =
    let (same, after) = recvn-take_bytes n net in
    ((recvn n net).1, ap (λ r. (r, (recvn n net).1)) (same ∙ ap (λ p. p.0) e), rw e at after)
