-- ===== src/Wire/Plain.antt =====
-- The pure steps of the programs raise neither a timeout nor the mark of spent fuel.
use embeded_convey_belt.Prelude.{ℕ, Bool-cases, inl, inr, List, [], ◌∷◌, length, ltb}
use embeded_convey_belt.Py.{Result, Text}
use embeded_convey_belt.Py.Plain.{IsPlain, IsPlain-bind}
use embeded_convey_belt.Py.Utf8.{encode, decode}
use embeded_convey_belt.Py.Utf8.Errors.{
  IsUnicode, fine, refused, decode-IsUnicode, encode-IsUnicode,
}
use embeded_convey_belt.Py.Struct.{pack_h, unpack_h}
use embeded_convey_belt.Wire.Encode.{enc_str}
use embeded_convey_belt.Wire.Groups.{enc_remlen-returns}
use embeded_convey_belt.Wire.Packets.{packet, connect_packet, subscribe_packet}

pub unpack_h-IsPlain : (b : List ℕ) → IsPlain (unpack_h b)
unfolding unpack_h
unpack_h-IsPlain [] = tt
unpack_h-IsPlain (x ∷ []) = tt
unpack_h-IsPlain (x ∷ y ∷ []) = tt
unpack_h-IsPlain (x ∷ y ∷ z ∷ b) = tt

pub IsPlain-of_IsUnicode {ℓ} : {A : Type ℓ} (r : Result A) → IsUnicode r → IsPlain r
IsPlain-of_IsUnicode r (fine a) = tt
IsPlain-of_IsUnicode r refused = tt

pub decode-IsPlain : (b : List ℕ) → IsPlain (decode b)
decode-IsPlain b = IsPlain-of_IsUnicode (decode b) (decode-IsUnicode b)

pack_h-IsPlain : (n : ℕ) → IsPlain (pack_h n)
unfolding pack_h
pack_h-IsPlain n = elim (Bool-cases (ltb n 65536)) [
  | inl short ↦ rw short tt
  | inr long ↦ rw long tt
]

enc_str-IsPlain : (s : Text) → IsPlain (enc_str s)
unfolding enc_str
enc_str-IsPlain s =
    IsPlain-bind _
      (λ b. IsPlain-bind _ (λ size. tt) (pack_h (length b)) (pack_h-IsPlain (length b))) (encode s)
      (IsPlain-of_IsUnicode (encode s) (encode-IsUnicode s))

packet-IsPlain : (kind : ℕ) (body : List ℕ) → IsPlain (packet kind body)
unfolding packet
packet-IsPlain kind body = let (size, e) = enc_remlen-returns (length body) in rw e tt

pub connect_packet-IsPlain : (client_id : Text) → IsPlain (connect_packet client_id)
unfolding connect_packet
connect_packet-IsPlain client_id =
    IsPlain-bind _
      (λ cid. IsPlain-bind _ (λ name. packet-IsPlain 0x10 _) (enc_str _) (enc_str-IsPlain _))
      (enc_str client_id) (enc_str-IsPlain client_id)

pub subscribe_packet-IsPlain : (topic : Text) → IsPlain (subscribe_packet topic)
unfolding subscribe_packet
subscribe_packet-IsPlain topic =
    IsPlain-bind _
      (λ pkt_id.
        IsPlain-bind _ (λ name. packet-IsPlain 0x82 _) (enc_str topic) (enc_str-IsPlain topic))
      (pack_h 1) (pack_h-IsPlain 1)
