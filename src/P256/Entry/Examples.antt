-- ===== src/P256/Entry/Examples.antt =====
-- `on_host` of examples/p256/src/lib.rs on two requests, for values of one byte.
use llvm_metal.Base.{
  ℕ, ◌≡◌, refl, some, List, [], ◌∷◌, map, length, length-replicate, replicate, get_or, arith,
}
use llvm_metal.Kernel.Examples.{one_byte}
use llvm_metal.P256.{Field}
use llvm_metal.P256.Point.{Point}
use llvm_metal.P256.Curve.{Key, Request, Signature}
use llvm_metal.P256.Entry.{sign_on_host}
use llvm_metal.P256.Entry.Launched.{signature_of, sign_on_host_lem}

abbrev small_field : ℕ → Field
small_field modulus = record {
  modulus = modulus ∷ replicate 7 0;
  one = 1 ∷ replicate 7 0;
  r2 = 1 ∷ replicate 7 0;
  inverse_exponent = 3 ∷ replicate 7 0;
  n0inv = 1;
}

abbrev key_of : ℕ → Key
key_of d = record {
  p = small_field 7;
  n = small_field 5;
  b3 = 3 ∷ replicate 7 0;
  d = d ∷ replicate 7 0;
}

abbrev point_of : ℕ → Point
point_of x = record { x = x ∷ replicate 7 0; y = 1 ∷ replicate 7 0; z = 1 ∷ replicate 7 0 }

abbrev request_of : ℕ → Request
request_of k = record { z = 2 ∷ replicate 7 0; k = k ∷ replicate 7 0 }

abbrev low_limb : Signature → ℕ
low_limb signature = get_or signature.r 0 0

points : List ℕ
points = replicate 1024 2

length-points : length points ≡ 1024
unfolding points
length-points = length-replicate {A = ℕ} 1024 2

sign_on_host_lem_example :
    sign_on_host ⦃plain_key = one_byte⦄ ⦃plain_point = one_byte⦄ ⦃plain_request = one_byte⦄
      ⦃plain_signature = one_byte⦄ key_of point_of request_of low_limb 4 points
      (7 ∷ 9 ∷ [])
    ≡ some (map (signature_of key_of point_of request_of low_limb 4 points 0) (7 ∷ 9 ∷ []))
sign_on_host_lem_example =
    sign_on_host_lem ⦃plain_key = one_byte⦄ ⦃plain_point = one_byte⦄ ⦃plain_request = one_byte⦄
      ⦃plain_signature = one_byte⦄ key_of point_of request_of low_limb 4 points 0 (7 ∷ 9 ∷ [])
      (omega arith) (omega arith) (omega (arith, length-points)) (omega (arith, length-points))
      (omega arith) (omega arith) refl (omega arith) 0
