-- ===== src/Rsa/Public/Power.antt =====
-- `verifies` of examples/rsa/src/key.rs is the power by 65537 modulo n.
use llvm_metal.Base.{
  ℕ, ◌+◌, ◌-◌, ◌*◌, ◌/◌, ◌%◌, ◌^◌, ◌<◌, ◌≡◌, ◌↔◌, inl, inr, refl, sym, ◌∙◌, ap, true, List, [], ◌∷◌,
  ◌==◌, ==_iff, Bool-cases, arith, length, replicate, pow-add, pow_one,
}
use llvm_metal.Modular.{montmul}
use llvm_metal.Modular.Value.{radix, value, IsLimbs, IsLimbs-replicate}
use llvm_metal.Modular.Congruence.{IsCongruent-of_eq}
use llvm_metal.Modular.Residue.{
  IsReducedLimbs, IsForm, montmul-IsForm, montmul-IsForm_of, montmul-leave,
}
use llvm_metal.Rsa.{fl, squarings}
use llvm_metal.Rsa.Ladder.{doubled, squarings-IsForm}
use llvm_metal.Rsa.Key.Halves.{odd-IsModulus, power-IsForm}
use llvm_metal.Rsa.Public.{public_key, equal_limbs, opened, verifies}

-- Limbs of the same count are equal exactly when their numbers are.
equal_limbs_iff :
    (xs ys : List ℕ)
    → IsLimbs xs
    → IsLimbs ys
    → length xs ≡ length ys
    → (equal_limbs xs ys ≡ true) ↔ (value xs ≡ value ys)
unfolding equal_limbs
equal_limbs_iff [] [] h k e = (λ p. refl, λ p. refl)
equal_limbs_iff [] (y ∷ ys) h k e = absurd (omega arith)
equal_limbs_iff (x ∷ xs) [] h k e = absurd (omega arith)
equal_limbs_iff (x ∷ xs) (y ∷ ys) (h, hs) (k, ks) e =
    let rest = equal_limbs_iff xs ys hs ks (omega arith) in
    elim (Bool-cases (x == y)) [
      | inl equal ↦
          let same : x ≡ y = (==_iff x y).0 equal in
          rw equal (λ p. omega (arith, rest.0 p, same), λ p. rest.1 (omega (arith, p, same)))
      | inr differ ↦ rw differ (
        λ p. cc,
        λ p.
            let same : x ≡ y = omega (arith, p) in
            let both : (x == y) ≡ true = (==_iff x y).1 same in cc,
      )
    ]

entered : (v r p : ℕ) → p ≡ r → v * (r * p) ≡ v * p * p
entered v r p e = omega (arith, ap (λ (z : ℕ). v * z * p) e)

module _ (n signature message : List ℕ) where
  -- `opened` of any 64 limbs is their power by 65537 modulo an odd n above 1.
  pub opened_lem :
      IsLimbs n
      → IsLimbs signature
      → length n ≡ fl
      → length signature ≡ fl
      → 1 < value n
      → value n % 2 ≡ 1
      → IsReducedLimbs n (opened (public_key n) signature)
        × (value (opened (public_key n) signature) ≡ value signature ^ 65537 % value n)
  unfolding opened public_key
  opened_lem limbs ls size count big odd =
      let key = public_key n in
      let v = value signature in
      let inverse = (value n / 2 + 1) ^ (32 * length n) in
      let good = odd-IsModulus n limbs big odd in
      let square : 2 ^ (64 * fl) ≡ radix fl * radix (length n) = rw size refl in
      let r2 = power-IsForm n (64 * fl) (radix fl) limbs big square in
      let s : IsForm n v (montmul signature key.r2 n key.n0inv) =
        montmul-IsForm_of n key.n0inv inverse good signature key.r2 v (radix fl * radix (length n))
          v (count ∙ sym size) ls r2.reduced (IsCongruent-of_eq refl) r2.residue
          (entered v (radix fl) _ (ap radix size)) in
      let first : IsForm n (v ^ 1) (montmul signature key.r2 n key.n0inv) = rw (pow_one v) s in
      let low = montmul signature key.r2 n key.n0inv in
      let high = squarings n key.n0inv 16 low in
      let acc = montmul high low n key.n0inv in
      let squared = squarings-IsForm n key.n0inv inverse good 16 _ v 1 first in
      let power : v ^ doubled 16 1 * v ≡ v ^ 65537 =
        sym (pow-add v 65536 1 ∙ ap (λ (z : ℕ). v ^ 65536 * z) (pow_one v)) in
      rw power at (
        montmul-leave n key.n0inv inverse good acc (1 ∷ replicate (fl - 1) 0) (v ^ doubled 16 1 * v)
          (montmul-IsForm n key.n0inv inverse good high low (v ^ doubled 16 1) v squared s)
          (sym size) (omega arith, IsLimbs-replicate (fl - 1)) refl)

  -- For an odd n above 1 of 64 limbs, and signature and message of 64 limbs, `verifies` is exactly whether the
  -- signature to the power of 65537 modulo n is the message.
  pub verifies_iff :
      IsLimbs n
      → IsLimbs signature
      → IsLimbs message
      → length n ≡ fl
      → length signature ≡ fl
      → length message ≡ fl
      → 1 < value n
      → value n % 2 ≡ 1
      → (verifies (public_key n) signature message ≡ true)
        ↔ (value signature ^ 65537 % value n ≡ value message)
  unfolding verifies
  verifies_iff limbs ls lm size cs cm big odd =
      let (reduced, total) = opened_lem limbs ls size cs big odd in
      rw total at (
        equal_limbs_iff (opened (public_key n) signature) message reduced.limbs lm
          (reduced.size ∙ size ∙ sym cm))
