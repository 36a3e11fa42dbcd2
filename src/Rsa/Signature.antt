-- ===== src/Rsa/Signature.antt =====
-- `sign_one` of examples/rsa/kernel/src/lib.rs makes the CRT signature.
use llvm_metal.Base.{
  ℕ, suc, ◌+◌, ◌-◌, ◌*◌, ◌%◌, ◌^◌, ◌<◌, ◌≤◌, ◌≡◌, ◌⊎◌, inl, inr, refl, sym, ◌∙◌, ap, List, ◌++◌,
  arith, length, length-append, replicate,
}
use native.Mathlib.Nat.{
  lt_trans, mod-eq_of_lt, add-mul-mod_self_right, mul-le-mul_left, mul-le-mul_right,
}
use llvm_metal.Modular.{montmul, modsub}
use llvm_metal.Modular.Value.{
  radix, value, IsLimbs, value-lt, value-append, IsLimbs-append, IsLimbs-replicate, value-replicate,
}
use llvm_metal.Modular.Add.{modsub_lem}
use llvm_metal.Modular.Congruence.{
  IsCongruent, IsCongruent-mod, IsCongruent-of_eq, IsCongruent-trans, IsCongruent-cancel,
  IsCongruent-mul_left, IsCongruent-add, IsCongruent-mul_right,
}
use llvm_metal.Modular.Residue.{IsForm, montmul_reduced}
use llvm_metal.Rsa.{SignKey, hl, fl, modexp_half, garner, sign_one}
use llvm_metal.Rsa.Exponent.{IsHalfKey, modexp_half-IsReducedLimbs}
use llvm_metal.Rsa.Garner.{garner_lem, radix-add}

-- What the host promises of the key: the two halves, the larger prime first, and q's inverse modulo p, the
-- number that `qinv_r` stands for.
pub record IsSignKey (key : SignKey) (inverse_p inverse_q inverse : ℕ) : Type 0 where
  pub p : IsHalfKey key.p inverse_p
  pub q : IsHalfKey key.q inverse_q
  pub larger : value key.q.modulus < value key.p.modulus
  pub qinv : IsForm key.p.modulus inverse key.qinv_r
  pub inverts : IsCongruent (value key.p.modulus) (inverse * value key.q.modulus) 1

-- 64 limbs of the number below p * q that is the message to the power of each half's exponent, modulo
-- that half's prime.
pub record IsSignature (message s : List ℕ) (key : SignKey) : Type 0 where
  pub size : length s ≡ fl
  pub limbs : IsLimbs s
  pub below : value s < value key.p.modulus * value key.q.modulus
  pub first :
      value s % value key.p.modulus ≡ value message ^ value key.p.exponent % value key.p.modulus
  pub second :
      value s % value key.q.modulus ≡ value message ^ value key.q.exponent % value key.q.modulus

-- The recombined number on the side of p: m2 + h * q is m1.
recombined :
    (p q m1 m2 d h y v r inverse_r : ℕ)
    → IsCongruent p (r * inverse_r) 1
    → IsCongruent p (y * q) 1
    → IsCongruent p v (y * r)
    → IsCongruent p (h * r) (d * v)
    → IsCongruent p (d + m2) m1
    → IsCongruent p (m2 + h * q) m1
recombined p q m1 m2 d h y v r inverse_r unit inverts form product difference =
    let h_is : IsCongruent p h (d * y) = IsCongruent-cancel r inverse_r unit (
      IsCongruent-trans product
        (IsCongruent-trans (IsCongruent-mul_left d form) (IsCongruent-of_eq (omega arith)))) in
    let hq : IsCongruent p (h * q) d = IsCongruent-trans (IsCongruent-mul_right q h_is) (
      IsCongruent-trans (IsCongruent-of_eq (omega arith))
        (IsCongruent-trans (IsCongruent-mul_left d inverts) (IsCongruent-of_eq (omega arith)))) in
    IsCongruent-trans (IsCongruent-add (IsCongruent-of_eq refl) hq)
      (IsCongruent-trans (IsCongruent-of_eq (omega arith)) difference)

-- m2 + h * q is below p * q.
below_product : (p q m2 h : ℕ) → m2 < q → h < p → m2 + h * q < p * q
below_product p q m2 h small high =
    let step : suc h * q ≤ p * q = mul-le-mul_right q high in omega (arith, step)

-- p * q fits in twice the limbs.
product_fits : (p q r : ℕ) → p < r → q < r → p * q ≤ r * r
product_fits p q r hp hq =
    let a : p * q ≤ r * q = mul-le-mul_right q (lt-le hp) in
    let b : r * q ≤ r * r = mul-le-mul_left r (lt-le hq) in omega (arith, a, b)
  where
    lt-le : {x y : ℕ} → x < y → x ≤ y
    lt-le h = omega arith

-- The message modulo q, with zeros above.
padded :
    (m : List ℕ)
    → length m ≡ hl
    → IsLimbs m
    → (length (m ++ replicate (fl - hl) 0) ≡ hl + hl)
      × IsLimbs (m ++ replicate (fl - hl) 0)
      × (value (m ++ replicate (fl - hl) 0) ≡ value m)
padded m size limbs =
    let zeros : List ℕ = replicate (fl - hl) 0 in
    let e = value-append m zeros in
    let z = ap (λ (t : ℕ). radix (length m) * t) (value-replicate (fl - hl)) in
    (
      length-append m zeros ∙ ap (λ (t : ℕ). t + length zeros) size,
      IsLimbs-append m zeros limbs (IsLimbs-replicate (fl - hl)),
      e ∙ ap (λ (t : ℕ). value m + t) z ∙ omega arith,
    )

-- modsub's result as a congruence.
subtracted :
    (d b a n : ℕ) → ((b ≤ a) × (d + b ≡ a)) ⊎ ((a < b) × (d + b ≡ a + n)) → IsCongruent n (d + b) a
subtracted d b a n (inl (_, e)) = IsCongruent-of_eq e
subtracted d b a n (inr (_, e)) = record { left = 0; right = 1; same = omega (arith, e) }

-- For a key that keeps its promises and a message of 64 limbs `sign_one` returns the CRT signature.
pub sign_one_lem :
    (message : List ℕ) (key : SignKey) (inverse_p inverse_q inverse : ℕ)
    → IsSignKey key inverse_p inverse_q inverse
    → length message ≡ fl
    → IsLimbs message
    → IsSignature message (sign_one message key) key
unfolding sign_one
sign_one_lem message key inverse_p inverse_q inverse good size limbs =
    let p = key.p.modulus in
    let q = key.q.modulus in
    let (ra, ea) = modexp_half-IsReducedLimbs key.p inverse_p good.p message size limbs in
    let (rb, eb) = modexp_half-IsReducedLimbs key.q inverse_q good.q message size limbs in
    let m1 = modexp_half message key.p in
    let m2 = modexp_half message key.q in
    let counts : length m2 ≡ length p = rb.size ∙ good.q.count ∙ sym good.p.count in
    let difference =
      modsub_lem m1 m2 p ra.limbs rb.limbs good.p.modulus.limbs ra.size counts ra.below
        (lt_trans rb.below good.larger) in
    let d = modsub m1 m2 p in
    let (rh, ch) =
      montmul_reduced p key.p.n0inv inverse_p good.p.modulus d key.qinv_r difference.size
        difference.limbs good.qinv.reduced in
    let h = montmul d key.qinv_r p key.p.n0inv in
    let (long, above, same) = padded m2 (rb.size ∙ good.q.count) rb.limbs in
    let start : List ℕ = m2 ++ replicate (fl - hl) 0 in
    let small : value start + value h * value q < value p * value q =
      rw (sym same) at (below_product (value p) (value q) (value m2) (value h) rb.below rh.below) in
    let limit_p = rw (ap radix good.p.count) at (value-lt p good.p.modulus.limbs) in
    let limit_q = rw (ap radix good.q.count) at (value-lt q good.q.modulus.limbs) in
    let power : radix hl * radix hl ≡ radix (length start) =
      sym (radix-add hl hl) ∙ ap radix (sym long) in
    let fits : value start + value h * value q < radix (length start) =
      omega (arith, small, power, product_fits (value p) (value q) (radix hl) limit_p limit_q) in
    let rounds : hl ≡ length h + 0 = omega (arith, rh.size, good.p.count) in
    let (count, words, total) =
      garner_lem h q start 0 rh.limbs good.q.modulus.limbs above good.q.count
        (long ∙ ap (λ (t : ℕ). hl + t) rounds) fits in
    let sum : value (garner h q start) ≡ value m2 + value h * value q =
      total ∙ ap (λ (t : ℕ). t + value h * value q) same in
    record {
      size = count ∙ long;
      limbs = words;
      below = omega (arith, small, total);
      first =
          ap (λ (t : ℕ). t % value p) sum
          ∙ IsCongruent-mod (
              recombined (value p) (value q) (value m1) (value m2) (value d) (value h) inverse
                (value key.qinv_r) (radix (length p)) inverse_p good.p.modulus.radix_inverse
                good.inverts good.qinv.residue ch (subtracted _ _ _ _ difference.total))
          ∙ mod-eq_of_lt ra.below
          ∙ ea;
      second =
          ap (λ (t : ℕ). t % value q) sum
          ∙ add-mul-mod_self_right (value m2) (value h) (value q)
          ∙ mod-eq_of_lt rb.below
          ∙ eb;
    }
