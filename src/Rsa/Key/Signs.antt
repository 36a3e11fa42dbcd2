-- ===== src/Rsa/Key/Signs.antt =====
-- The key that `sign_key` of examples/rsa/src/key.rs makes of two primes is one that the kernel signs with.
use llvm_metal.Base.{
  ℕ, ◌+◌, ◌-◌, ◌*◌, ◌/◌, ◌%◌, ◌^◌, ◌<◌, ◌≤◌, ◌≡◌, refl, sym, ◌∙◌, ap, none, some, List, arith,
  length, get_or, lt→ltb, le→ltb,
}
use llvm_metal.Modular.Value.{value, IsLimbs}
use llvm_metal.Modular.Congruence.{IsCongruent}
use llvm_metal.Rsa.{SignKey, hl}
use llvm_metal.Rsa.Exponent.{IsHalfKey}
use llvm_metal.Rsa.Signature.{IsSignKey}
use llvm_metal.Rsa.Key.{half, inverse, sign_key}
use llvm_metal.Rsa.Key.Halves.{half-IsHalfKey}
use llvm_metal.Rsa.Key.Inverse.{greater-reverse, less_two_lem, inverse-IsForm}

-- What the two texts of a half are: 32 limbs of an odd number above 1, and of an exponent.
pub record IsHalfText (modulus exponent : List ℕ) : Type 0 where
  pub limbs : IsLimbs modulus
  pub exponent_limbs : IsLimbs exponent
  pub size : length modulus ≡ hl
  pub big : 1 < value modulus
  pub odd : value modulus % 2 ≡ 1

abbrev pub radix_inverse : List ℕ → ℕ
radix_inverse m = (value m / 2 + 1) ^ (32 * length m)

half_of : {m e : List ℕ} → IsHalfText m e → IsHalfKey (half m e) (radix_inverse m)
half_of {m} {e} h = half-IsHalfKey m e h.limbs h.exponent_limbs h.size h.big h.odd

-- `sign_key` makes the key of two halves with the larger prime first, and its promises hold where q has the
-- inverse modulo p that Fermat's little theorem gives.
pub sign_key_lem :
    (p dp q dq : List ℕ)
    → IsHalfText p dp
    → IsHalfText q dq
    → value q < value p
    → 1 < get_or p 0 0
    → IsCongruent (value p) (value q ^ (value p - 2) * value q) 1
    → (key : SignKey) × (sign_key (half p dp) (half q dq) ≡ some key)
      × (key.p ≡ half p dp)
      × (key.q ≡ half q dq)
      × IsSignKey key (radix_inverse p) (radix_inverse q) (value q ^ (value p - 2))
unfolding sign_key half
sign_key_lem p dp q dq hp hq larger low fermat =
    let (exponent, made, size, limbs, total) = less_two_lem p hp.limbs low in
    let order = greater-reverse p q hp.limbs hq.limbs (hp.size ∙ sym hq.size) ∙ lt→ltb _ _ larger in
    let less : value exponent ≡ value p - 2 = omega (arith, total) in
    (
      record { p = half p dp; q = half q dq; qinv_r = inverse (half p dp) (half q dq) exponent },
      rw (order, made) refl,
      refl,
      refl,
      record {
        p = half_of hp;
        q = half_of hq;
        larger = larger;
        qinv = rw (ap (λ (k : ℕ). value q ^ k) less) at (
            inverse-IsForm (half p dp) _ (half_of hp) (half q dq) exponent limbs (size ∙ hp.size)
              hq.limbs hq.size);
        inverts = fermat;
      },
    )

-- The assertion of `sign_key`: of primes in the other order, or equal, there is no key.
pub sign_key-none :
    (p dp q dq : List ℕ)
    → IsHalfText p dp
    → IsHalfText q dq
    → value p ≤ value q
    → sign_key (half p dp) (half q dq) ≡ none
unfolding sign_key half
sign_key-none p dp q dq hp hq other =
    let order = greater-reverse p q hp.limbs hq.limbs (hp.size ∙ sym hq.size) ∙ le→ltb _ _ other in
    rw order refl
