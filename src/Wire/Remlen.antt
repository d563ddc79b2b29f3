-- ===== src/Wire/Remlen.antt =====
-- `_read_remlen` on what `_enc_remlen` writes.
use embeded_convey_belt.Prelude.{
  ℕ, zero, suc, ◌+◌, ◌*◌, ◌/◌, ◌%◌, ◌^◌, ◌≤◌, ◌<◌, ◌≡◌, ◌∙◌, refl, sym, ap, length, List, [], ◌∷◌,
  arith, bit_and, ◌==◌, Bool-cases, inl, inr, false,
}
use embeded_convey_belt.Prelude.Bits.{bit_and-128}
use embeded_convey_belt.Py.{Result, ok, err, runtime_error}
use embeded_convey_belt.Net.{Net}
use embeded_convey_belt.Net.Stream.{Item, bytes, stream}
use embeded_convey_belt.Wire.Encode.{low_seven, enc_remlen}
use embeded_convey_belt.Wire.Receive.{read_remlen_loop, read_remlen}
use embeded_convey_belt.Wire.Segments.{After, After-trans, recvn-bytes}
use embeded_convey_belt.Wire.Groups.{groups, enc_remlen-groups, length-groups_long, pow_pos, lt-pow}
use native.Mathlib.Nat.{pow-suc, div-add-mod}
use native.Mathlib.Numerals.{add-one}

-- The lowest digit and the rest, both at the place `mul`.
regroup :
    (val n mul : ℕ) → val + n % 128 * 128 ^ mul + n / 128 * 128 ^ (mul + 1) ≡ val + n * 128 ^ mul
regroup val n mul = omega (
  arith,
  ap (λ (t : ℕ). t * 128 ^ mul) (div-add-mod n 128),
  ap (λ (t : ℕ). n / 128 * t) (ap (λ m. 128 ^ m) (add-one mul) ∙ pow-suc 128 mul),
)

-- One byte of a length field.
last_read :
    (rounds val mul b : ℕ) (s : List Item) (net : Net)
    → b < 128
    → stream net.incoming ≡ bytes (b ∷ []) s
    → (net' : Net) × (read_remlen_loop (suc rounds) val mul net ≡ (ok (val + b * 128 ^ mul), net'))
      × After net s net'
unfolding read_remlen_loop
last_read rounds val mul b s net h e =
    let (net', got, after) = recvn-bytes (b ∷ []) s net e in
    (net', rw got (ground (arith, bit_and-128 b)), after)

inner_read :
    (rounds val mul b : ℕ) (s : List Item) (net : Net)
    → b < 128
    → stream net.incoming ≡ bytes ((b + 128) ∷ []) s
    → (net' : Net) × (read_remlen_loop (suc rounds) val mul net
        ≡ read_remlen_loop rounds (val + b * 128 ^ mul) (mul + 1) net')
      × After net s net'
unfolding read_remlen_loop
inner_read rounds val mul b s net h e =
    let (net', got, after) = recvn-bytes ((b + 128) ∷ []) s net e in
    let more : (bit_and (b + 128) 0x80 == 0) ≡ false = ground (arith, bit_and-128 (b + 128)) in
    let low : low_seven (b + 128) ≡ b = omega arith in (net', rw (got, more, low), after)

-- Reading a length field that `rounds` bytes can hold.
read_remlen_loop-groups :
    (k rounds n val mul : ℕ) (s : List Item) (net : Net)
    → n < 128 ^ suc k
    → k < rounds
    → stream net.incoming ≡ bytes (groups k n) s
    → (net' : Net) × (read_remlen_loop rounds val mul net ≡ (ok (val + n * 128 ^ mul), net'))
      × After net s net'
read_remlen_loop-groups k zero n val mul s net h r e = absurd (omega arith)
read_remlen_loop-groups zero (suc rounds) n val mul s net h r e =
    last_read rounds val mul n s net (omega arith) (e ∙ ap (λ b. bytes (b ∷ []) s) (omega arith))
read_remlen_loop-groups (suc k) (suc rounds) n val mul s net h r e =
    elim (Bool-cases (n / 128 == 0)) [
      | inl short ↦
          last_read rounds val mul n s net (ground arith)
            (e ∙ rw short (ap (λ b. bytes (b ∷ []) s) (ground arith)))
      | inr long ↦
          let (net₁, step, after₁) =
            inner_read rounds val mul (n % 128) (bytes (groups k (n / 128)) s) net (omega arith)
              (e ∙ rw long) in
          let (net₂, rest, after₂) =
            read_remlen_loop-groups k rounds (n / 128) (val + n % 128 * 128 ^ mul) (mul + 1) s net₁
              (omega (arith, pow-suc 128 (suc k))) (omega arith) after₁.left in
          (
            net₂,
            step ∙ rest ∙ ap (λ v. (ok v, net₂)) (regroup val n mul),
            After-trans after₁ after₂,
          )
    ]

-- `rounds` bytes are not enough for n: the first `rounds` of its digits all announce another.
read_remlen_loop_long :
    (rounds k n val mul : ℕ) (s : List Item) (net : Net)
    → n < 128 ^ suc k
    → 128 ^ rounds ≤ n
    → stream net.incoming ≡ bytes (groups k n) s
    → (read_remlen_loop rounds val mul net).0 ≡ err runtime_error
read_remlen_loop_long zero k n val mul s net h r e = unfold read_remlen_loop in refl
read_remlen_loop_long (suc rounds) zero n val mul s net h r e =
    absurd (omega (arith, pow-suc 128 rounds, pow_pos rounds))
read_remlen_loop_long (suc rounds) (suc k) n val mul s net h r e =
    let long : (n / 128 == 0) ≡ false = ground (arith, pow-suc 128 rounds, pow_pos rounds) in
    let (net', step, after) =
      inner_read rounds val mul (n % 128) (bytes (groups k (n / 128)) s) net (omega arith)
        (e ∙ rw long) in
    ap (λ p. p.0) step
    ∙ read_remlen_loop_long rounds k (n / 128) (val + n % 128 * 128 ^ mul) (mul + 1) s net'
        (omega (arith, pow-suc 128 (suc k))) (omega (arith, pow-suc 128 rounds)) after.left

-- From a socket that delivers `_enc_remlen(n)`, in whatever segments, `_read_remlen` reads n back and
-- leaves what follows, for every n below 128 ^ 4.
pub read_remlen-enc_remlen :
    (n : ℕ) (bs : List ℕ) (s : List Item) (net : Net)
    → enc_remlen n ≡ ok bs
    → stream net.incoming ≡ bytes bs s
    → n < 128 ^ 4
    → (net' : Net) × (read_remlen net ≡ (ok n, net')) × After net s net'
unfolding read_remlen
read_remlen-enc_remlen n bs s net e arrives h =
    let same : bs ≡ groups 3 n = cc (enc_remlen-groups 3 n h) in
    let (net', got, after) =
      read_remlen_loop-groups 3 4 n 0 0 s net h (omega arith)
        (arrives ∙ ap (λ l. bytes l s) same) in
    (net', got ∙ ap (λ v. (ok v, net')) (omega arith), after)

-- The bytes that were made, if no exception was raised.
abbrev pub made : Result (List ℕ) → List ℕ
made (ok bs) = bs
made (err e) = []

-- A length of 128 ^ 4 or more is encoded without complaint, in five bytes or more; from a socket that
-- delivers these bytes, in whatever segments, `_read_remlen` refuses it with a RuntimeError.
pub read_remlen-too_long :
    (n : ℕ) (s : List Item) (net : Net)
    → 128 ^ 4 ≤ n
    → stream net.incoming ≡ bytes (made (enc_remlen n)) s
    → (enc_remlen n ≡ ok (made (enc_remlen n)))
      × (5 ≤ length (made (enc_remlen n)))
      × ((read_remlen net).0 ≡ err runtime_error)
unfolding read_remlen
read_remlen-too_long n s net h arrives =
    let e = enc_remlen-groups n n (lt-pow n) in
    let same : made (enc_remlen n) ≡ groups n n = ap made e in
    (
      e ∙ ap ok (sym same),
      rw same (length-groups_long 4 n n (lt-pow n) h),
      read_remlen_loop_long 4 n n 0 0 s net (lt-pow n) h (arrives ∙ ap (λ l. bytes l s) same),
    )
