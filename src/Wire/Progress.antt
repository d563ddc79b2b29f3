-- ===== src/Wire/Progress.antt =====
-- What is left on the socket after a step: a step that may be followed by another has taken something.
use mathlib.Core.Path.{subst}
use embeded_convey_belt.Prelude.{
  ℕ, zero, suc, ◌<◌, ◌≡◌, sym, List, [], ◌∷◌, Bool, true, false, arith, length, if◌then◌else◌,
  bit_and, ◌==◌, Bool-cases, not, ◌||◌, inl, inr,
}
use embeded_convey_belt.Py.{Result, ok, err, runtime_error, timeout, stuck, index}
use embeded_convey_belt.Net.Send.{sendall_cases}
use embeded_convey_belt.Net.{Net, Io, pure, raise, continue, sendall}
use embeded_convey_belt.Net.Stream.{Item, byte, gap, fault, stream, take_bytes}
use embeded_convey_belt.Py.Plain.{IsPlain, index-IsPlain}
use embeded_convey_belt.Wire.Receive.{
  recvn, check_connack, read_remlen, read_remlen_loop, read_frame,
}
use embeded_convey_belt.Wire.Segments.{recvn-take_bytes}

abbrev pub room : Net → ℕ
room net = length (stream net.incoming)

-- Where the loop may go on, fewer than n bytes and silences are left; and no fuel ran out.
abbrev pub Leaves {ℓ} : {A : Type ℓ} → ℕ → Result A × Net → Type 0
Leaves n (ok a, net) = room net < n
Leaves n (err timeout, net) = room net < n
Leaves n (err stuck, net) = ⊥
Leaves n (err _, net) = Unit

module _ {ℓ κ} {A : Type ℓ} {B : Type κ} (n : ℕ) (f : A → Io B)
    (rest : (a : A) (net : Net) → room net < n → Leaves n (f a net)) where
  pub Leaves-continue : (out : Result A × Net) → Leaves n out → Leaves n (continue out.0 f out.1)
  Leaves-continue (ok a, net) h = rest a net h
  Leaves-continue (err timeout, net) h = h
  Leaves-continue (err _, net) h = h

abbrev Fails : Result (List ℕ) × List Item → ℕ → Type 0
Fails (ok a, s) n = length s < n
Fails (err timeout, s) n = length s < n
Fails (err stuck, s) n = ⊥
Fails (err _, s) n = Unit

take_bytes-Fails : (k n : ℕ) (s : List Item) → length s < n → Fails (take_bytes k s) n
take_bytes-Fails zero n s h = h
take_bytes-Fails (suc k) n [] h = tt
take_bytes-Fails (suc k) n (gap ∷ s) h = omega arith
take_bytes-Fails (suc k) n (fault ∷ s) h = tt
take_bytes-Fails (suc k) n (byte b ∷ s) h = ground (arith, take_bytes-Fails k n s (omega arith))

Leaves-of_Fails :
    (n : ℕ) (r : Result (List ℕ)) (s : List Item) (net : Net)
    → stream net.incoming ≡ s
    → Fails (r, s) n
    → Leaves n (r, net)
Leaves-of_Fails n (ok a) s net e h = rw e h
Leaves-of_Fails n (err timeout) s net e h = rw e h
Leaves-of_Fails n (err _) s net e h = h

pub recvn-Leaves : (k n : ℕ) (net : Net) → room net < n → Leaves n (recvn k net)
recvn-Leaves k n net h =
    let (same, after) = recvn-take_bytes k net in
    let (r, s) = take_bytes k (stream net.incoming) in
    subst (λ x. Leaves n (x, (recvn k net).1)) (sym same)
      (Leaves-of_Fails n r s (recvn k net).1 after.left
        (take_bytes-Fails k n (stream net.incoming) h))

-- The first byte of a packet makes the difference.
take_one-Fails : (n : ℕ) (s : List Item) → length s < suc n → Fails (take_bytes 1 s) n
take_one-Fails n [] h = tt
take_one-Fails n (byte b ∷ s) h = omega arith
take_one-Fails n (gap ∷ s) h = omega arith
take_one-Fails n (fault ∷ s) h = tt

recvn_one-Leaves : (n : ℕ) (net : Net) → room net < suc n → Leaves n (recvn 1 net)
recvn_one-Leaves n net h =
    let (same, after) = recvn-take_bytes 1 net in
    let (r, s) = take_bytes 1 (stream net.incoming) in
    subst (λ x. Leaves n (x, (recvn 1 net).1)) (sym same)
      (Leaves-of_Fails n r s (recvn 1 net).1 after.left (take_one-Fails n (stream net.incoming) h))

pub lift-Leaves {ℓ} :
    {A : Type ℓ} (n : ℕ) (r : Result A) (net : Net) → IsPlain r → room net < n → Leaves n (r, net)
lift-Leaves n (ok a) net p h = h
lift-Leaves n (err timeout) net p h = absurd p
lift-Leaves n (err _) net p h = p

read_remlen_loop-Leaves :
    (rounds val mul n : ℕ) (net : Net)
    → room net < n
    → Leaves n (read_remlen_loop rounds val mul net)
unfolding read_remlen_loop
read_remlen_loop-Leaves zero val mul n net h = tt
read_remlen_loop-Leaves (suc rounds) val mul n net h =
    Leaves-continue n _
      (λ buf net₁ h₁.
        Leaves-continue n _
          (λ b net₂ h₂. elim (Bool-cases (bit_and b 0x80 == 0)) [
            | inl done ↦ rw done h₂
            | inr more ↦ rw more (read_remlen_loop-Leaves rounds _ _ n net₂ h₂)
          ])
          (index buf 0, net₁) (lift-Leaves n (index buf 0) net₁ (index-IsPlain buf 0) h₁))
      (recvn 1 net) (recvn-Leaves 1 n net h)

body-Leaves :
    (rem n : ℕ) (net : Net)
    → room net < n
    → Leaves n ((if rem == 0 then pure [] else recvn rem) net)
body-Leaves rem n net h = elim (Bool-cases (rem == 0)) [
  | inl none_left ↦ rw none_left h
  | inr some_left ↦ rw some_left (recvn-Leaves rem n net h)
]

-- A packet that is read has taken something.
pub read_frame-Leaves : (n : ℕ) (net : Net) → room net < suc n → Leaves n (read_frame net)
unfolding read_frame read_remlen
read_frame-Leaves n net h =
    Leaves-continue n _
      (λ head net₁ h₁.
        Leaves-continue n _
          (λ first net₂ h₂.
            Leaves-continue n _
              (λ rem net₃ h₃.
                Leaves-continue n _ (λ body net₄ h₄. h₄) _ (body-Leaves rem n net₃ h₃))
              _ (read_remlen_loop-Leaves 4 0 0 n net₂ h₂))
          _ (lift-Leaves n _ net₁ (index-IsPlain head 0) h₁))
      _ (recvn_one-Leaves n net h)

pub sendall-Leaves : (bs : List ℕ) (n : ℕ) (net : Net) → room net < n → Leaves n (sendall bs net)
sendall-Leaves bs n net h =
    let (same, outcome) = sendall_cases bs net in
    elim outcome [
      | inl e ↦ subst (λ r. Leaves n (r, (sendall bs net).1)) (sym e) (rw same h)
      | inr e ↦ subst (λ r. Leaves n (r, (sendall bs net).1)) (sym e) tt
    ]

unless-Leaves :
    (n : ℕ) (b : Bool) (net : Net)
    → room net < n
    → Leaves {0} n ((if b then raise runtime_error else pure tt) net)
unless-Leaves n true net h = tt
unless-Leaves n false net h = h

pub check_connack-Leaves :
    (ack : List ℕ) (n : ℕ) (net : Net) → room net < n → Leaves n (check_connack ack net)
unfolding check_connack
check_connack-Leaves ack n net h =
    Leaves-continue n _
      (λ kind net₁ h₁.
        Leaves-continue n _
          (λ code net₂ h₂. unless-Leaves n (not (kind == 0x20) || not (code == 0)) net₂ h₂) _
          (lift-Leaves n _ net₁ (index-IsPlain ack 3) h₁))
      _ (lift-Leaves n _ net (index-IsPlain ack 0) h)
