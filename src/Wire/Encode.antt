-- ===== src/Wire/Encode.antt =====
-- `_enc_str` and `_enc_remlen` of broker/conveyor_subscriber.py.
use embeded_convey_belt.Prelude.{
  ℕ, zero, suc, ◌/◌, ◌%◌, ◌^◌, List, [], ◌∷◌, ◌++◌, bit_or, length, ◌==◌, if◌then◌else◌,
}
use embeded_convey_belt.Py.{Result, ok, err, stuck, Text, ◌>>=◌}
use embeded_convey_belt.Py.Utf8.{encode}
use embeded_convey_belt.Py.Struct.{pack_h}

-- n & 0x7F
abbrev pub low_seven : ℕ → ℕ
low_seven n = n % 2 ^ 7

-- `_enc_str`
unfoldable pub enc_str : Text → Result (List ℕ)
enc_str s = do b ← encode s; size ← pack_h (length b); ok (size ++ b)

-- `_enc_remlen`. Each round divides n by 128, so n + 1 rounds are enough.
unfoldable pub enc_remlen_loop : ℕ → ℕ → List ℕ → Result (List ℕ)
enc_remlen_loop zero n out = err stuck
enc_remlen_loop (suc fuel) n out =
    let byte = low_seven n in
    let n' = n / 2 ^ 7 in
    let out' = out ++ (bit_or byte (if n' == 0 then 0 else 0x80) ∷ []) in
    let more = enc_remlen_loop fuel n' out' in if n' == 0 then ok out' else more

unfoldable pub enc_remlen : ℕ → Result (List ℕ)
unfolding enc_remlen_loop
enc_remlen n = enc_remlen_loop (suc n) n []
