-- ===== src/Rsa/Key.antt =====
-- examples/rsa/src/key.rs: the constants of a key that the host derives with the kernel's arithmetic.
pub mod Newton
pub mod Doubling
pub mod Halves
pub mod Inverse
pub mod Signs
use llvm_metal.Base.{
  ℕ, zero, suc, ◌+◌, ◌-◌, ◌*◌, ◌%◌, ◌^◌, Bool, true, false, List, [], ◌∷◌, Option, none, some,
  length, replicate, get_or, ltb, ◌==◌, if◌then◌else◌,
}
use mathlib.Core.List.{reverse}
use mathlib.Core.Option
use llvm_metal.Modular.{montmul, modadd, wrapping_neg}
use llvm_metal.Modular.Scan.{bit_of}
use llvm_metal.Rsa.{HalfKey, SignKey, hl}

-- One round of the iteration in `n0inv`.
pub newton : ℕ → ℕ → ℕ
newton m x = x * ((2 + 2 ^ 32 - m * x % 2 ^ 32) % 2 ^ 32) % 2 ^ 32

pub newton_rounds : ℕ → ℕ → ℕ → ℕ
newton_rounds m zero x = x
newton_rounds m (suc count) x = newton_rounds m count (newton m x)

pub n0inv : ℕ → ℕ
n0inv m = wrapping_neg (newton_rounds m 5 1)

-- The loop of `power_of_two`.
pub doublings : List ℕ → ℕ → List ℕ → List ℕ
doublings m zero x = x
doublings m (suc count) x = doublings m count (modadd x x m)

-- `power_of_two`; an array of L limbs starts as 1 and zeros.
pub power_of_two : ℕ → List ℕ → List ℕ
power_of_two bits m = doublings m bits (1 ∷ replicate (length m - 1) 0)

-- `half`, of the limbs that `limbs` reads off the texts.
unfoldable pub half : List ℕ → List ℕ → HalfKey
half modulus exponent = record {
  modulus = modulus;
  exponent = exponent;
  one = power_of_two (32 * hl) modulus;
  r2 = power_of_two (64 * hl) modulus;
  r3 = power_of_two (96 * hl) modulus;
  n0inv = n0inv (get_or modulus 0 0);
}

-- `Iterator::gt`: the first elements that differ decide, and a list is above its proper prefixes.
pub greater : List ℕ → List ℕ → Bool
greater [] ys = false
greater (x ∷ xs) [] = true
greater (x ∷ xs) (y ∷ ys) = let rest = greater xs ys in if x == y then rest else ltb y x

-- `exponent[0] -= 2`; an overflow panics, which is none here.
pub less_two : List ℕ → Option (List ℕ)
less_two [] = none
less_two (x ∷ xs) = if ltb x 2 then none else some ((x - 2) ∷ xs)

-- One round of square-and-multiply.
pub inverse_step : HalfKey → List ℕ → List ℕ → ℕ → List ℕ → List ℕ
inverse_step p base exponent bit acc =
    let squared = montmul acc acc p.modulus p.n0inv in
    if bit_of exponent bit == 1 then montmul squared base p.modulus p.n0inv else squared

-- The loop over the bits below `count`, the highest first.
pub inverse_steps : HalfKey → List ℕ → List ℕ → ℕ → List ℕ → List ℕ
inverse_steps p base exponent zero acc = acc
inverse_steps p base exponent (suc bit) acc =
    inverse_steps p base exponent bit (inverse_step p base exponent bit acc)

pub inverse : HalfKey → HalfKey → List ℕ → List ℕ
inverse p q exponent =
    let base = montmul q.modulus p.r2 p.modulus p.n0inv in
    inverse_steps p base exponent (32 * hl) p.one

-- `sign_key`, of its two halves; a failed assertion is none.
pub sign_key : HalfKey → HalfKey → Option SignKey
sign_key p q =
    if greater (reverse p.modulus) (reverse q.modulus)
    then Option.map (λ exponent. record { p = p; q = q; qinv_r = inverse p q exponent })
        (less_two p.modulus)
    else none
