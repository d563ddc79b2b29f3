-- ===== src/Net.antt =====
-- A TCP socket as the programs see it through Python's `socket` module (`recv`, `sendall`): what the
-- peer will send and when, what the socket has accepted, and the actions over it.
pub mod Stream
pub mod Send
use embeded_convey_belt.Prelude.{ℕ, ◌-◌, Option, none, some, List, [], ◌∷◌, ◌++◌, take, drop}
use embeded_convey_belt.Py.{Exc, Result, ok, err, timeout, os_error}

-- What the peer does next: it delivers a segment of one byte at least, or nothing for as long as
-- the socket's timeout, or it resets the connection. A list of these is all that will arrive;
-- behind it the connection is closed.
pub data Arrival : Type 0 where
  chunk : ℕ → List ℕ → Arrival
  silence reset : Arrival

-- `outcomes` are those of the next calls of `sendall`: `none` if all is accepted, and `some k` for an
-- `OSError` after k bytes. Calls behind the list succeed. `sent` is all that was accepted.
pub record Net : Type 0 where
  pub incoming : List Arrival
  pub outcomes : List (Option ℕ)
  pub sent : List ℕ

-- The outcome of `socket.create_connection`.
pub data Attempt : Type 0 where
  refused : Attempt
  connected : Net → Attempt

-- An action may raise, and leaves the socket as it was at that point.
abbrev pub Io {ℓ} : Type ℓ → Type ℓ
Io A = Net → Result A × Net

module _ {ℓ} {A : Type ℓ} where
  abbrev pub pure : A → Io A
  pure a net = (ok a, net)

  abbrev pub raise : Exc → Io A
  raise e net = (err e, net)

  abbrev pub lift : Result A → Io A
  lift r net = (r, net)

module _ {ℓ κ} {A : Type ℓ} {B : Type κ} where
  abbrev pub continue : Result A → (A → Io B) → Io B
  continue (ok a) f net = f a net
  continue (err e) f net = (err e, net)

  infixl 5 ◌>>=◌
  abbrev pub ◌>>=◌ : Io A → (A → Io B) → Io B
  ◌>>=◌ m f net = let (r, net') = m net in continue r f net'

infixl 5 ◌>>◌
abbrev pub ◌>>◌ {ℓ} : {B : Type ℓ} → Io (Unit {0}) → Io B → Io B
m >> k = m >>= λ _. k

-- What is left of a segment stays in front.
pub put_back : List ℕ → List Arrival → List Arrival
put_back [] more = more
put_back (b ∷ bs) more = chunk b bs ∷ more

pub recv_from : ℕ → List Arrival → Result (List ℕ) × List Arrival
unfolding put_back
recv_from n [] = (ok [], [])
recv_from n (chunk b bs ∷ more) = (ok (take n (b ∷ bs)), put_back (drop n (b ∷ bs)) more)
recv_from n (silence ∷ more) = (err timeout, more)
recv_from n (reset ∷ more) = (err os_error, [])

-- `sock.recv(n)`: at most n bytes of one segment, and `b""` once the peer has closed.
unfoldable pub recv : ℕ → Io (List ℕ)
unfolding recv_from
recv n net = let (r, more) = recv_from n net.incoming in (r, record net { incoming = more })

send_as : List (Option ℕ) → List ℕ → Io (Unit {0})
send_as [] data_out net = (ok tt, record net { sent = net.sent ++ data_out })
send_as (none ∷ later) data_out net =
    (ok tt, record net { outcomes = later; sent = net.sent ++ data_out })
send_as (some k ∷ later) data_out net =
    (err os_error, record net { outcomes = later; sent = net.sent ++ take k data_out })

-- `sock.sendall(data)`.
unfoldable pub sendall : List ℕ → Io (Unit {0})
unfolding send_as
sendall data_out net = send_as net.outcomes data_out net
