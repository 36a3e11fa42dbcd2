-- ===== src/Base/Bits.antt =====
-- Selecting words by a mask of all ones or of zeros, for every width.
use Prim.Native.Nat.{
  ℕ, zero, suc, ◌-◌, ◌/◌, ◌^◌, ◌≤◌, ◌<◌, min, max, bit_and, bit_or, digits, bit_and-bitwise,
  bit_or-bitwise,
}
use mathlib.Core.Path.{◌≡◌, refl, ◌∙◌}
use native.Mathlib.Omega.{arith}
use native.Mathlib.Nat.{pow-suc, one-le-pow}

-- Each law is first proved of the digit recursion, whose fuel bounds the first number.
and_digits_zero : (fuel a : ℕ) → digits (λ b. 0) min fuel a 0 ≡ 0
and_digits_zero zero a = refl
and_digits_zero (suc fuel) zero = refl
and_digits_zero (suc fuel) (suc a) = omega (arith, and_digits_zero fuel (suc a / 2))

and_digits_ones : (fuel k a : ℕ) → a ≤ fuel → a < 2 ^ k → digits (λ b. 0) min fuel a (2 ^ k - 1) ≡ a
and_digits_ones zero k a h lt = omega arith
and_digits_ones (suc fuel) k zero h lt = refl
and_digits_ones (suc fuel) zero (suc a) h lt = absurd (omega arith)
and_digits_ones (suc fuel) (suc k) (suc a) h lt =
    let p = pow-suc 2 k in
    let one = one-le-pow k 2 (omega arith) in
    let half : (2 ^ suc k - 1) / 2 ≡ 2 ^ k - 1 = omega arith in
    let rest = and_digits_ones fuel k (suc a / 2) (omega arith) (omega arith) in
    rw half (rw rest (omega arith))

pub or_digits_zero : (fuel a : ℕ) → a ≤ fuel → digits (λ b. b) max fuel a 0 ≡ a
or_digits_zero zero a h = omega arith
or_digits_zero (suc fuel) zero h = refl
or_digits_zero (suc fuel) (suc a) h = omega (arith, or_digits_zero fuel (suc a / 2) (omega arith))

pub bit_and-zero : (a : ℕ) → bit_and a 0 ≡ 0
bit_and-zero a = bit_and-bitwise a 0 ∙ and_digits_zero a a

pub bit_and-ones : (k a : ℕ) → a < 2 ^ k → bit_and a (2 ^ k - 1) ≡ a
bit_and-ones k a h = bit_and-bitwise a (2 ^ k - 1) ∙ and_digits_ones a k a (omega arith) h

pub bit_or-zero : (a : ℕ) → bit_or a 0 ≡ a
bit_or-zero a = bit_or-bitwise a 0 ∙ or_digits_zero a a (omega arith)

pub zero-bit_or : (a : ℕ) → bit_or 0 a ≡ a
zero-bit_or a = bit_or-bitwise 0 a
