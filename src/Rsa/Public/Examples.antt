-- ===== src/Rsa/Public/Examples.antt =====
-- examples/rsa/src/key.rs on the primes 5 and 3.
use llvm_metal.Base.{ℕ, ◌+◌, ◌*◌, ◌%◌, ◌^◌, ◌≡◌, ◌↔◌, refl, true, some, List, ◌∷◌, arith, replicate}
use llvm_metal.Modular.Value.{value, IsLimbs-replicate}
use llvm_metal.Rsa.{SignKey, sign_one}
use llvm_metal.Rsa.Signature.{IsSignature, sign_one_lem}
use llvm_metal.Rsa.Key.{power_of_two, half, sign_key}
use llvm_metal.Rsa.Key.Halves.{power-IsForm, half-IsHalfKey}
use llvm_metal.Rsa.Key.Signs.{IsHalfText, radix_inverse}
use llvm_metal.Rsa.Public.{public_key, verifies}
use llvm_metal.Rsa.Public.Power.{verifies_iff}
use llvm_metal.Rsa.Public.Checked.{IsKeyText, verifies-sign_one}

abbrev five : List ℕ
five = 5 ∷ replicate 31 0

abbrev three : List ℕ
three = 3 ∷ replicate 31 0

abbrev unit : List ℕ
unit = 1 ∷ replicate 31 0

abbrev public_modulus : List ℕ
public_modulus = 15 ∷ replicate 63 0

abbrev message : List ℕ
message = 2 ∷ replicate 63 0

abbrev key : SignKey
key = record { p = half five unit; q = half three unit; qinv_r = power_of_two (1 + 32 * 32) five }

five-IsHalfText : IsHalfText five unit
five-IsHalfText = record {
  limbs = (omega arith, IsLimbs-replicate 31);
  exponent_limbs = (omega arith, IsLimbs-replicate 31);
  size = refl;
  big = omega arith;
  odd = refl;
}

three-IsHalfText : IsHalfText three unit
three-IsHalfText = record {
  limbs = (omega arith, IsLimbs-replicate 31);
  exponent_limbs = (omega arith, IsLimbs-replicate 31);
  size = refl;
  big = omega arith;
  odd = refl;
}

keys-IsKeyText : IsKeyText five unit three unit public_modulus
keys-IsKeyText = record {
  first = five-IsHalfText;
  second = three-IsHalfText;
  larger = omega arith;
  low = omega arith;
  modulus = (omega arith, IsLimbs-replicate 63);
  size = refl;
  product = refl;
  rounds_p = 16384;
  rounds_q = 32768;
  undoes_p = refl;
  undoes_q = refl;
  fermat = record { left = 0; right = 16; same = refl };
}

verifies-sign_one_example :
    (made : SignKey) × (sign_key (half five unit) (half three unit) ≡ some made)
    × (verifies (public_key public_modulus) (sign_one message made) message ≡ true)
verifies-sign_one_example =
    verifies-sign_one five unit three unit public_modulus message keys-IsKeyText
      (omega arith, IsLimbs-replicate 63) refl (omega arith)
      (record { left = 0; right = 6; same = refl }) (record { left = 0; right = 2; same = refl })

sign_one_lem_example : IsSignature message (sign_one message key) key
unfolding half
sign_one_lem_example =
    sign_one_lem message key (radix_inverse five) (radix_inverse three) 2
      (record {
        p =
            half-IsHalfKey five unit (omega arith, IsLimbs-replicate 31)
              (omega arith, IsLimbs-replicate 31) refl (omega arith) refl;
        q =
            half-IsHalfKey three unit (omega arith, IsLimbs-replicate 31)
              (omega arith, IsLimbs-replicate 31) refl (omega arith) refl;
        larger = omega arith;
        qinv =
            power-IsForm five (1 + 32 * 32) 2 (omega arith, IsLimbs-replicate 31) (omega arith)
              refl;
        inverts = record { left = 0; right = 1; same = refl };
      })
      refl (omega arith, IsLimbs-replicate 63)

verifies_iff_example :
    (verifies (public_key public_modulus) message message ≡ true)
    ↔ (value message ^ 65537 % value public_modulus ≡ value message)
verifies_iff_example =
    verifies_iff public_modulus message message (omega arith, IsLimbs-replicate 63)
      (omega arith, IsLimbs-replicate 63) (omega arith, IsLimbs-replicate 63) refl refl refl
      (omega arith) refl
