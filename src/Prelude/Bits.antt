-- ===== src/Prelude/Bits.antt =====
-- Masks on one byte as arithmetic; each law is a table of the byte's values, checked by evaluation.
use Prim.Native.Nat.{ℕ, zero, suc, ◌+◌, ◌*◌, ◌/◌, ◌<◌, bit_and, bit_or}
use mathlib.Core.Path.{◌≡◌, refl}
use mathlib.Core.Bool.{Bool, true, false}
use mathlib.Core.Logic.{ite}
use native.Mathlib.Decide.{ℕ_discrete}
use native.Mathlib.Omega.{arith}

module _ (f g : ℕ → ℕ) where
  same_below : ℕ → Bool
  unfolding ℕ_discrete
  same_below zero = true
  same_below (suc n) = ite (ℕ_discrete (f n) (g n)) (same_below n) false

  same_below→eq : (n : ℕ) → same_below n ≡ true → (i : ℕ) → i < n → f i ≡ g i
  unfolding same_below
  same_below→eq zero e i h = absurd (omega arith)
  same_below→eq (suc n) e i h = ground (arith, same_below→eq n (ground arith) i)

pub bit_and-128 : (b : ℕ) → b < 256 → bit_and b 0x80 ≡ b / 128 * 128
unfolding same_below
bit_and-128 = same_below→eq _ _ 256 refl

pub bit_and-240 : (b : ℕ) → b < 256 → bit_and b 0xf0 ≡ b / 16 * 16
unfolding same_below
bit_and-240 = same_below→eq _ _ 256 refl

pub bit_or-128 : (b : ℕ) → b < 128 → bit_or b 0x80 ≡ b + 128
unfolding same_below
bit_or-128 = same_below→eq _ _ 128 refl

pub bit_or-zero : (b : ℕ) → b < 128 → bit_or b 0 ≡ b
unfolding same_below
bit_or-zero = same_below→eq _ _ 128 refl
