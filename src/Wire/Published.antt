-- ===== src/Wire/Published.antt =====
-- The PUBLISH packets of `publish_packet`.
use embeded_convey_belt.Prelude.{ℕ, ◌≡◌, List, ◌++◌, length, All, ltb, Bool-cases, inl, inr}
use embeded_convey_belt.Py.{Result, ok, err, struct_error, Text}
use embeded_convey_belt.Py.Utf8.{IsScalar, decode}
use embeded_convey_belt.Py.Utf8.RoundTrip.{decode-encode}
use embeded_convey_belt.Wire.Names.{counted, enc_str_cases}
use embeded_convey_belt.Wire.Packets.{packet, publish_packet}

-- The body of a packet that was composed: the topic with its length, and the payload.
pub record Body (t p : Text) (bs : List ℕ) : Type 0 where
  pub name : List ℕ
  pub content : List ℕ
  pub topic : decode name ≡ ok t
  pub payload : decode content ≡ ok p
  pub packed : packet 0x30 (counted name ++ content) ≡ ok bs

pub publish_packet-Body :
    (t p : Text) (bs : List ℕ)
    → All IsScalar t
    → All IsScalar p
    → publish_packet t p ≡ ok bs
    → Body t p bs
unfolding publish_packet
publish_packet-Body t p bs ht hp e =
    let (name, _, back_t, written) = enc_str_cases t ht in
    let (content, es, _, back_p) = decode-encode p hp in
    elim (Bool-cases (ltb (length name) 65536)) [
      | inl short ↦ record {
        name = name;
        content = content;
        topic = back_t;
        payload = back_p;
        packed = rw (written, short, es) at e;
      }
      | inr long ↦
          let refused : ◌≡◌ {A = Result (List ℕ)} (err struct_error) (ok bs) =
            rw (written, long) at e in
          cc
    ]
