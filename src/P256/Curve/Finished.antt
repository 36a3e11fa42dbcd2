-- ===== src/P256/Curve/Finished.antt =====
-- `finish` of examples/p256/kernel/src/lib.rs is the arithmetic of an ECDSA signature.
use llvm_metal.Base.{
  ℕ, ◌+◌, ◌*◌, ◌%◌, ◌^◌, ◌<◌, ◌≡◌, ◌⊎◌, inl, inr, sym, ◌∙◌, ap, List, arith, length,
}
use llvm_metal.Modular.{reduce}
use llvm_metal.Modular.Value.{radix, value, IsLimbs}
use llvm_metal.Modular.Reduce.{reduce_lem}
use llvm_metal.Modular.Congruence.{IsCongruent-of_eq, IsCongruent-below}
use llvm_metal.Modular.Residue.{IsReducedLimbs, IsForm, montmul-IsForm, modadd-IsForm}
use llvm_metal.P256.{Field, limb_count, mul, add, enter, leave, invert}
use llvm_metal.P256.Laws.{IsField, enter-IsForm, leave_lem, invert-IsForm}
use llvm_metal.P256.Point.{Point}
use llvm_metal.P256.Curve.{Key, Signature, finish}
use llvm_metal.P256.Curve.Promises.{IsKey}

-- The difference, or the number itself, is the remainder.
once_mod : (t n r : ℕ) → r < n → (r ≡ t) ⊎ (r + n ≡ t) → r ≡ t % n
once_mod t n r h (inl e) = IsCongruent-below h (IsCongruent-of_eq e)
once_mod t n r h (inr e) =
    IsCongruent-below h (record { left = 1; right = 0; same = omega (arith, e) })

module _ (f : Field) (inverse : ℕ) (good : IsField f inverse) where
  mul-IsForm :
      (a b : List ℕ) (x y : ℕ)
      → IsForm f.modulus x a
      → IsForm f.modulus y b
      → IsForm f.modulus (x * y) (mul f a b)
  unfolding mul
  mul-IsForm a b x y p q = montmul-IsForm f.modulus f.n0inv inverse good.modulus a b x y p q

  add-IsForm :
      (a b : List ℕ) (x y : ℕ)
      → IsForm f.modulus x a
      → IsForm f.modulus y b
      → IsForm f.modulus (x + y) (add f a b)
  unfolding add
  add-IsForm a b x y p q = modadd-IsForm f.modulus f.n0inv inverse good.modulus a b x y p q

  -- `reduce` of eight limbs below twice the modulus
  reduce-mod :
      (t : List ℕ)
      → IsLimbs t
      → length t ≡ limb_count
      → value t < 2 * value f.modulus
      → IsReducedLimbs f.modulus (reduce t 0 f.modulus)
        × (value (reduce t 0 f.modulus) ≡ value t % value f.modulus)
  reduce-mod t limbs size small =
      let same : value t + radix (length t) * 0 ≡ value t = omega arith in
      let r = rw same at (
        reduce_lem t 0 f.modulus limbs good.modulus.limbs (size ∙ sym good.count) (omega arith)
          (omega (arith, small))) in
      (
        record { size = r.size; limbs = r.limbs; below = r.below },
        once_mod (value t) (value f.modulus) _ r.below r.once,
      )

-- For coordinates that stand for x and z, with the inverse as a power: r is the affine coordinate modulo n,
-- and s is (hash + r * secret) / nonce modulo n.
pub record IsFinished (key : Key) (x z hash nonce secret : ℕ) (s : Signature) : Type 0 where
  pub r_limbs : IsReducedLimbs key.n.modulus s.r
  pub s_limbs : IsReducedLimbs key.n.modulus s.s
  pub r_lem :
      value s.r ≡ x * z ^ value key.p.inverse_exponent % value key.p.modulus % value key.n.modulus
  pub s_lem :
      value s.s
      ≡ nonce ^ value key.n.inverse_exponent * (hash + value s.r * secret) % value key.n.modulus

-- For a key that keeps its promises, a point with coordinates in Montgomery form, and a hash and a nonce of
-- eight limbs, `finish` is the signature of ECDSA.
pub finish_lem :
    (key : Key) (inverse_p inverse_n b secret : ℕ)
    → IsKey key inverse_p inverse_n b secret
    → (sum : Point) (x z : ℕ) → IsForm key.p.modulus x sum.x
    → IsForm key.p.modulus z sum.z
    → (hash nonce : List ℕ) → IsLimbs hash
    → IsLimbs nonce
    → length hash ≡ limb_count
    → length nonce ≡ limb_count
    → IsFinished key x z (value hash) (value nonce) secret (finish sum hash nonce key)
unfolding finish
finish_lem key inverse_p inverse_n b secret good sum x z fx fz hash nonce lh ln sh sn =
    let p = key.p in
    let n = key.n in
    let inverse = invert-IsForm p inverse_p good.p sum.z z fz in
    let affine = mul-IsForm p inverse_p good.p sum.x (invert p sum.z) _ _ fx inverse in
    let (left, left_value) = leave_lem p inverse_p good.p _ _ affine in
    let below : value (leave p (mul p sum.x (invert p sum.z))) < 2 * value n.modulus =
      omega (arith, left.below, good.close) in
    let (rr, rv) =
      reduce-mod n inverse_n good.n (leave p (mul p sum.x (invert p sum.z))) left.limbs
        (left.size ∙ good.p.count) below in
    let r = reduce (leave p (mul p sum.x (invert p sum.z))) 0 n.modulus in
    let entered = enter-IsForm n inverse_n good.n r (rr.size ∙ good.n.count) rr.limbs in
    let rd = mul-IsForm n inverse_n good.n (enter n r) key.d _ _ entered good.d in
    let hashed = enter-IsForm n inverse_n good.n hash sh lh in
    let total = add-IsForm n inverse_n good.n (enter n hash) _ _ _ hashed rd in
    let divided =
      invert-IsForm n inverse_n good.n (enter n nonce) _
        (enter-IsForm n inverse_n good.n nonce sn ln) in
    let (rs, sv) =
      leave_lem n inverse_n good.n _ _
        (mul-IsForm n inverse_n good.n (invert n (enter n nonce)) _ _ _ divided total) in
    record {
      r_limbs = rr;
      s_limbs = rs;
      r_lem = rv ∙ ap (λ (v : ℕ). v % value n.modulus) left_value;
      s_lem = sv;
    }
