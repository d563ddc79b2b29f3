-- ===== src/Py/Struct.antt =====
-- `struct.pack("!H", n)` and `struct.unpack("!H", b)`: an unsigned 16-bit number, high byte first.
use embeded_convey_belt.Prelude.{ℕ, ◌+◌, ◌*◌, ◌/◌, ◌%◌, List, [], ◌∷◌, ltb, if◌then◌else◌}
use embeded_convey_belt.Py.{Result, ok, err, struct_error}

unfoldable pub pack_h : ℕ → Result (List ℕ)
pack_h n = if ltb n 65536 then ok (n / 256 ∷ n % 256 ∷ []) else err struct_error

-- `unpack` refuses any argument that is not two bytes long.
unfoldable pub unpack_h : List ℕ → Result ℕ
unpack_h (a ∷ b ∷ []) = ok (a * 256 + b)
unpack_h _ = err struct_error
