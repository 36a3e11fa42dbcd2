-- ===== src/Rsa/Entry/Examples.antt =====
-- `on_host` of examples/rsa/src/lib.rs on two messages, for keys and messages of one byte.
use llvm_metal.Base.{ℕ, ◌≡◌, some, List, [], ◌∷◌, map, replicate, get_or, arith}
use llvm_metal.Kernel.Examples.{one_byte}
use llvm_metal.Rsa.{HalfKey, SignKey}
use llvm_metal.Rsa.Entry.{signed, on_host}
use llvm_metal.Rsa.Entry.Launched.{on_host_lem}

abbrev some_half : ℕ → HalfKey
some_half modulus = record {
  modulus = modulus ∷ replicate 31 0;
  exponent = 3 ∷ replicate 31 0;
  one = 1 ∷ replicate 31 0;
  r2 = 1 ∷ replicate 31 0;
  r3 = 1 ∷ replicate 31 0;
  n0inv = 1;
}

abbrev key_of : ℕ → SignKey
key_of modulus = record { p = some_half modulus; q = some_half 3; qinv_r = 2 ∷ replicate 31 0 }

abbrev limbs : ℕ → List ℕ
limbs message = message ∷ replicate 63 0

abbrev low_limb : List ℕ → ℕ
low_limb signature = get_or signature 0 0

on_host_lem_example :
    on_host ⦃plain_key = one_byte⦄ ⦃plain_message = one_byte⦄ key_of limbs low_limb 5 (7 ∷ 9 ∷ [])
    ≡ some (
        map
          (signed ⦃plain_key = one_byte⦄ ⦃plain_message = one_byte⦄ key_of limbs low_limb 5)
          (7 ∷ 9 ∷ []))
on_host_lem_example =
    on_host_lem ⦃plain_key = one_byte⦄ ⦃plain_message = one_byte⦄ key_of limbs low_limb 5
      (7 ∷ 9 ∷ []) (omega arith) (omega arith) (omega arith) (omega arith)
