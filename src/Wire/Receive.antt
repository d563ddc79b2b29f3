-- ===== src/Wire/Receive.antt =====
-- `_recvn` and `_read_remlen` of broker/conveyor_subscriber.py, and how its loop reads one packet.
use embeded_convey_belt.Prelude.{
  ℕ, zero, suc, ◌+◌, ◌-◌, ◌*◌, ◌^◌, List, [], ◌∷◌, ◌++◌, bit_and, length, ltb, ◌==◌, not, ◌||◌,
  if◌then◌else◌,
}
use embeded_convey_belt.Py.{eof_error, runtime_error, stuck, index}
use embeded_convey_belt.Net.{Io, pure, raise, lift, ◌>>=◌, recv}
use embeded_convey_belt.Wire.Encode.{low_seven}

unfoldable pub received : List ℕ → Io (List ℕ)
received [] = raise eof_error
received (b ∷ bs) = pure (b ∷ bs)

-- `_recvn`. Each round adds one byte at least to `buf`, so n + 1 rounds are enough.
unfoldable pub recvn_loop : ℕ → ℕ → List ℕ → Io (List ℕ)
unfolding received
recvn_loop zero n buf = raise stuck
recvn_loop (suc fuel) n buf =
    let more : Io (List ℕ) = (do
      piece ← recv (n - length buf)
      some_bytes ← received piece
      recvn_loop fuel n (buf ++ some_bytes)) in
    if ltb (length buf) n then more else pure buf

unfoldable pub recvn : ℕ → Io (List ℕ)
unfolding recvn_loop
recvn n = recvn_loop (suc n) n []

-- `_read_remlen`: `rounds` are left of the four.
unfoldable pub read_remlen_loop : ℕ → ℕ → ℕ → Io ℕ
read_remlen_loop zero val mul = raise runtime_error
read_remlen_loop (suc rounds) val mul = do
  buf ← recvn 1
  b ← lift (index buf 0)
  let val' = val + low_seven b * 128 ^ mul
  if bit_and b 0x80 == 0 then pure val' else read_remlen_loop rounds val' (mul + 1)

unfoldable pub read_remlen : Io ℕ
unfolding read_remlen_loop
read_remlen = read_remlen_loop 4 0 0

-- The packet type and the body of one packet.
unfoldable pub read_frame : Io (ℕ × List ℕ)
read_frame = do
  head ← recvn 1
  first ← lift (index head 0)
  let pkt_type = bit_and first 0xf0
  rem ← read_remlen
  body ← if rem == 0 then pure [] else recvn rem
  pure (pkt_type, body)

-- if ack[0] != 0x20 or ack[3] != 0: raise RuntimeError
unfoldable pub check_connack : List ℕ → Io (Unit {0})
check_connack ack = do
  kind ← lift (index ack 0)
  code ← lift (index ack 3)
  if not (kind == 0x20) || not (code == 0) then raise runtime_error else pure tt
