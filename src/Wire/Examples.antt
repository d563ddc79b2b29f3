-- ===== src/Wire/Examples.antt =====
-- The theorems on the wire format at concrete values.
use embeded_convey_belt.Prelude.{◌^◌, ◌≤◌, ◌≡◌, length, refl, List, [], ◌∷◌, arith}
use embeded_convey_belt.Py.{ok, err, runtime_error}
use embeded_convey_belt.Net.{Net, Arrival, chunk, silence, recv}
use embeded_convey_belt.Net.Stream.{byte, stream, take_bytes}
use embeded_convey_belt.Wire.Encode.{enc_remlen}
use embeded_convey_belt.Wire.Receive.{recvn, read_remlen}
use embeded_convey_belt.Wire.Segments.{After, recvn-take_bytes}
use embeded_convey_belt.Wire.Remlen.{made, read_remlen-enc_remlen, read_remlen-too_long}

-- A socket on which these segments arrive.
abbrev socket : List Arrival → Net
socket arrivals = record { incoming = arrivals; outcomes = []; sent = [] }

-- 321 and the first byte behind it, in two segments.
abbrev length_321 : Net
length_321 = socket (chunk 0xc1 [] ∷ chunk 0x02 (0x30 ∷ []) ∷ [])

read_remlen-enc_remlen_example :
    (net' : Net) × (read_remlen length_321 ≡ (ok 321, net'))
    × After length_321 (byte 0x30 ∷ []) net'
unfolding enc_remlen stream
read_remlen-enc_remlen_example =
    read_remlen-enc_remlen 321 (0xc1 ∷ 0x02 ∷ []) (byte 0x30 ∷ []) length_321 refl refl
      (omega arith)

abbrev length_2_28 : Net
length_2_28 = socket (chunk 0x80 (0x80 ∷ 0x80 ∷ 0x80 ∷ 0x01 ∷ []) ∷ [])

read_remlen-too_long_example :
    (enc_remlen (2 ^ 28) ≡ ok (made (enc_remlen (2 ^ 28))))
    × (5 ≤ length (made (enc_remlen (2 ^ 28))))
    × ((read_remlen length_2_28).0 ≡ err runtime_error)
unfolding enc_remlen stream
read_remlen-too_long_example = read_remlen-too_long (2 ^ 28) [] length_2_28 (omega arith) refl

abbrev three_and_silence : Net
three_and_silence = socket (chunk 1 (2 ∷ []) ∷ chunk 3 (4 ∷ []) ∷ silence ∷ [])

recvn-take_bytes_example :
    ((recvn 3 three_and_silence).0 ≡ (take_bytes 3 (stream three_and_silence.incoming)).0)
    × After three_and_silence
        (take_bytes 3 (stream three_and_silence.incoming)).1
        (recvn 3 three_and_silence).1
recvn-take_bytes_example = recvn-take_bytes 3 three_and_silence

-- What the functions compute at these values.
recvn_test : recvn 3 three_and_silence ≡ (ok (1 ∷ 2 ∷ 3 ∷ []), socket (chunk 4 [] ∷ silence ∷ []))
unfolding recvn recv
recvn_test = refl

enc_remlen_test : enc_remlen 321 ≡ ok (0xc1 ∷ 0x02 ∷ [])
unfolding enc_remlen
enc_remlen_test = refl
