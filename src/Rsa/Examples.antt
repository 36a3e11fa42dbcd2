-- ===== src/Rsa/Examples.antt =====
-- examples/rsa/kernel/src/lib.rs on the modulus 2 ^ 1024 - 1, where R is 1.
use llvm_metal.Base.{ℕ, zero, suc, ◌+◌, ◌-◌, ◌*◌, ◌%◌, ◌^◌, ◌≡◌, refl, List, ◌∷◌, arith, replicate}
use llvm_metal.Modular.Value.{radix, value, IsLimbs, IsLimbs-replicate}
use llvm_metal.Modular.Residue.{IsReducedLimbs}
use llvm_metal.Rsa.{HalfKey, modexp_half}
use llvm_metal.Rsa.Exponent.{IsHalfKey, modexp_half_lem}

abbrev unit : List ℕ
unit = 1 ∷ replicate 31 0

abbrev key : HalfKey
key = record {
  modulus = replicate 32 (2 ^ 32 - 1);
  exponent = 3 ∷ replicate 31 0;
  one = unit;
  r2 = unit;
  r3 = unit;
  n0inv = 1;
}

abbrev message : List ℕ
message = 5 ∷ replicate 63 0

full-IsLimbs : (count : ℕ) → IsLimbs (replicate count (2 ^ 32 - 1))
full-IsLimbs zero = tt
full-IsLimbs (suc count) = (omega arith, full-IsLimbs count)

unit-IsReducedLimbs : IsReducedLimbs key.modulus unit
unit-IsReducedLimbs = record {
  size = refl;
  limbs = (omega arith, IsLimbs-replicate 31);
  below = omega arith;
}

key-IsHalfKey : IsHalfKey key 1
key-IsHalfKey = record {
  modulus = record {
    limbs = full-IsLimbs 32;
    some_limbs = omega arith;
    low_inverse = refl;
    radix_inverse = record { left = 0; right = 1; same = refl };
  };
  count = refl;
  exponent = (omega arith, IsLimbs-replicate 31);
  one = record {
    reduced = unit-IsReducedLimbs;
    residue = record { left = 1; right = 0; same = refl };
  };
  r2 = record {
    reduced = unit-IsReducedLimbs;
    residue = record { left = radix 32 + 1; right = 0; same = refl };
  };
  r3 = record {
    reduced = unit-IsReducedLimbs;
    residue = record { left = radix 32 * radix 32 + radix 32 + 1; right = 0; same = refl };
  };
}

modexp_half_lem_example :
    value (modexp_half message key) ≡ value message ^ value key.exponent % value key.modulus
modexp_half_lem_example =
    modexp_half_lem key 1 key-IsHalfKey message refl (omega arith, IsLimbs-replicate 63)
