-- ===== src/Rsa/Key/Halves.antt =====
-- `half` of examples/rsa/src/key.rs makes what the kernel needs of one prime.
use llvm_metal.Base.{
  ℕ, ◌+◌, ◌*◌, ◌/◌, ◌%◌, ◌^◌, ◌<◌, ◌≡◌, refl, List, [], ◌∷◌, arith, length, get_or,
}
use llvm_metal.Modular.Value.{word, radix, value, IsLimbs}
use llvm_metal.Modular.Congruence.{IsCongruent-of_eq, IsCongruent-trans}
use llvm_metal.Modular.Residue.{IsModulus, IsForm}
use llvm_metal.Modular.Scan.{radix-two}
use llvm_metal.Rsa.{hl}
use llvm_metal.Rsa.Exponent.{IsHalfKey}
use llvm_metal.Rsa.Key.{half, power_of_two, n0inv}
use llvm_metal.Rsa.Key.Newton.{n0inv_lem}
use llvm_metal.Rsa.Key.Doubling.{power_of_two_lem, halves_lem, positive_length}

-- The low limb, as the kernel reads it.
low_limb : (m : List ℕ) → 0 < length m → IsLimbs m → value m % word ≡ get_or m 0 0
low_limb [] pos h = absurd (omega arith)
low_limb (x ∷ xs) pos (h, hs) = omega arith

-- What the constants of an odd modulus above 1 satisfy.
pub odd-IsModulus :
    (m : List ℕ)
    → IsLimbs m
    → 1 < value m
    → value m % 2 ≡ 1
    → IsModulus m (n0inv (get_or m 0 0)) ((value m / 2 + 1) ^ (32 * length m))
odd-IsModulus m limbs big odd =
    let pos = positive_length m big in
    let low = low_limb m pos limbs in
    let low_odd : get_or m 0 0 % 2 ≡ 1 = omega (arith, low) in
    let low_small : get_or m 0 0 < word = omega (arith, low) in
    record {
      limbs = limbs;
      some_limbs = pos;
      low_inverse = rw low (n0inv_lem (get_or m 0 0) low_odd low_small);
      radix_inverse = rw (radix-two (length m)) (halves_lem (value m) (32 * length m) odd);
    }

-- A power of two that is x * R stands for x.
pub power-IsForm :
    (m : List ℕ) (bits x : ℕ)
    → IsLimbs m
    → 1 < value m
    → 2 ^ bits ≡ x * radix (length m)
    → IsForm m x (power_of_two bits m)
power-IsForm m bits x limbs big e =
    let (reduced, residue) = power_of_two_lem m limbs bits big in
    record { reduced = reduced; residue = IsCongruent-trans residue (IsCongruent-of_eq e) }

pub half-IsHalfKey :
    (modulus exponent : List ℕ)
    → IsLimbs modulus
    → IsLimbs exponent
    → length modulus ≡ hl
    → 1 < value modulus
    → value modulus % 2 ≡ 1
    → IsHalfKey (half modulus exponent) ((value modulus / 2 + 1) ^ (32 * length modulus))
unfolding half
half-IsHalfKey modulus exponent lm le size big odd =
    let one : 2 ^ (32 * hl) ≡ 1 * radix (length modulus) = rw size refl in
    let two : 2 ^ (64 * hl) ≡ radix hl * radix (length modulus) = rw size refl in
    let three : 2 ^ (96 * hl) ≡ radix hl * radix hl * radix (length modulus) = rw size refl in
    record {
      modulus = odd-IsModulus modulus lm big odd;
      count = size;
      exponent = le;
      one = power-IsForm modulus (32 * hl) 1 lm big one;
      r2 = power-IsForm modulus (64 * hl) (radix hl) lm big two;
      r3 = power-IsForm modulus (96 * hl) (radix hl * radix hl) lm big three;
    }
