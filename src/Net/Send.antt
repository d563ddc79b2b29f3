-- ===== src/Net/Send.antt =====
-- `sendall` on a socket that accepts all, and on one that is broken.
use embeded_convey_belt.Prelude.{ℕ, ◌≡◌, ◌⊎◌, Option, some, List, [], ◌∷◌, ◌++◌, arith}
use embeded_convey_belt.Py.{ok, err, os_error}
use embeded_convey_belt.Net.{Net, sendall}

pub sendall-accepting :
    (bs : List ℕ) (net : Net)
    → net.outcomes ≡ []
    → sendall bs net ≡ (ok tt, record net { sent = net.sent ++ bs })
unfolding sendall
sendall-accepting bs net e = ground arith

-- `sendall` takes nothing from what arrives, and can only raise OSError.
pub sendall_cases :
    (bs : List ℕ) (net : Net)
    → ((sendall bs net).1.incoming ≡ net.incoming)
      × (((sendall bs net).0 ≡ ok tt) ⊎ ((sendall bs net).0 ≡ err os_error))
unfolding sendall
sendall_cases bs net = ground arith

-- A socket that is broken for good delivers none of what it is given.
pub broken_sendall :
    (bs : List ℕ) (net : Net) (later : List (Option ℕ))
    → net.outcomes ≡ some 0 ∷ later
    → sendall bs net ≡ (err os_error, record net { outcomes = later; sent = net.sent ++ [] })
unfolding sendall
broken_sendall bs net later e = ground arith
