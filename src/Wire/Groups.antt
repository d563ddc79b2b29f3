-- ===== src/Wire/Groups.antt =====
-- What `_enc_remlen` writes: base-128 digits.
use embeded_convey_belt.Prelude.{
  ℕ, false, zero, suc, ◌+◌, ◌/◌, ◌%◌, ◌^◌, ◌≤◌, ◌<◌, ◌≡◌, List, [], ◌∷◌, ◌++◌, arith, length,
  append_assoc, ◌==◌, if◌then◌else◌, All,
}
use embeded_convey_belt.Prelude.Bits.{bit_or-128, bit_or-zero}
use embeded_convey_belt.Py.{ok, IsByte}
use embeded_convey_belt.Wire.Encode.{enc_remlen_loop, enc_remlen}
use native.Mathlib.Nat.{pow-suc}

-- The base-128 digits of n, lowest first, with the top bit set on all but the last. `k` bounds
-- how many follow the first.
abbrev pub groups : ℕ → ℕ → List ℕ
groups zero n = n % 128 ∷ []
groups (suc k) n =
    let rest = groups k (n / 128) in if n / 128 == 0 then n % 128 ∷ [] else (n % 128 + 128) ∷ rest

last_round :
    (fuel n : ℕ) (out : List ℕ)
    → n < 128
    → enc_remlen_loop (suc fuel) n out ≡ ok (out ++ (n % 128) ∷ [])
unfolding enc_remlen_loop
last_round fuel n out h = ground (arith, bit_or-zero (n % 128))

inner_round :
    (fuel n : ℕ) (out : List ℕ)
    → 128 ≤ n
    → enc_remlen_loop (suc fuel) n out
      ≡ enc_remlen_loop fuel (n / 128) (out ++ (n % 128 + 128) ∷ [])
unfolding enc_remlen_loop
inner_round fuel n out h = ground (arith, bit_or-128 (n % 128))

enc_remlen_loop-groups :
    (k n : ℕ) (out : List ℕ) (fuel : ℕ)
    → n < 128 ^ suc k
    → n < 128 ^ suc fuel
    → enc_remlen_loop (suc fuel) n out ≡ ok (out ++ groups k n)
enc_remlen_loop-groups zero n out fuel h f = last_round fuel n out (omega arith)
enc_remlen_loop-groups (suc k) n out zero h f = ground (arith, last_round 0 n out)
enc_remlen_loop-groups (suc k) n out (suc fuel) h f = ground (
  arith,
  last_round (suc fuel) n out,
  inner_round (suc fuel) n out,
  enc_remlen_loop-groups k (n / 128) (out ++ (n % 128 + 128) ∷ []) fuel
      (omega (arith, pow-suc 128 (suc k))) (omega (arith, pow-suc 128 (suc fuel))),
  append_assoc out ((n % 128 + 128) ∷ []) (groups k (n / 128)),
)

pub pow_pos : (n : ℕ) → 0 < 128 ^ n
pow_pos zero = omega arith
pow_pos (suc n) = omega (arith, pow-suc 128 n, pow_pos n)

pub lt-pow : (n : ℕ) → n < 128 ^ suc n
lt-pow zero = omega arith
lt-pow (suc n) = omega (arith, pow-suc 128 (suc n), lt-pow n)

-- `_enc_remlen` ends on every number, with its base-128 digits.
pub enc_remlen-groups : (k n : ℕ) → n < 128 ^ suc k → enc_remlen n ≡ ok (groups k n)
unfolding enc_remlen
enc_remlen-groups k n h = enc_remlen_loop-groups k n [] n h (lt-pow n)

pub groups-IsByte : (k n : ℕ) → All IsByte (groups k n)
groups-IsByte zero n = omega arith
groups-IsByte (suc k) n = ground (arith, groups-IsByte k (n / 128))

pub length-groups : (k n : ℕ) → (1 ≤ length (groups k n)) × (length (groups k n) ≤ suc k)
length-groups zero n = omega arith
length-groups (suc k) n = ground (arith, length-groups k (n / 128))

-- A number that `rounds` digits cannot hold takes more.
pub length-groups_long :
    (rounds k n : ℕ) → n < 128 ^ suc k → 128 ^ rounds ≤ n → suc rounds ≤ length (groups k n)
length-groups_long zero k n h r = (length-groups k n).0
length-groups_long (suc rounds) zero n h r =
    absurd (omega (arith, pow-suc 128 rounds, pow_pos rounds))
length-groups_long (suc rounds) (suc k) n h r =
    let long : (n / 128 == 0) ≡ false = ground (arith, pow-suc 128 rounds, pow_pos rounds) in
    let more =
      length-groups_long rounds k (n / 128) (omega (arith, pow-suc 128 (suc k)))
        (omega (arith, pow-suc 128 rounds)) in
    rw long (omega (arith, more))

-- `_enc_remlen` returns on every n, with numbers below 256: one byte at least, and at most k + 1 for n
-- below 128 ^ (k + 1).
pub enc_remlen_shape :
    (k n : ℕ)
    → n < 128 ^ suc k
    → (bs : List ℕ) × (enc_remlen n ≡ ok bs) × All IsByte bs × (1 ≤ length bs) × (length bs ≤ suc k)
enc_remlen_shape k n h =
    let (least, most) = length-groups k n in
    (groups k n, enc_remlen-groups k n h, groups-IsByte k n, least, most)

pub enc_remlen-returns : (n : ℕ) → (bs : List ℕ) × (enc_remlen n ≡ ok bs)
enc_remlen-returns n = (groups n n, enc_remlen-groups n n (lt-pow n))
