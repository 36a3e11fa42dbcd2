-- ===== src/Modular/Residue.antt =====
-- Numbers in Montgomery form: what `montmul` and `modadd` of examples/rsa/kernel/src/modular.rs do to
-- the residues that their arguments stand for.
use llvm_metal.Base.{ℕ, ◌+◌, ◌*◌, ◌%◌, ◌<◌, ◌≤◌, ◌≡◌, inl, inr, ap, List, arith, length}
use native.Mathlib.Nat.{mul-lt-mul_of_pos_left, mul-le-mul_right, mul-le-mul_left}
use llvm_metal.Modular.{montmul, modadd}
use llvm_metal.Modular.Value.{word, radix, value, IsLimbs, value-lt}
use llvm_metal.Modular.Add.{modadd_lem}
use llvm_metal.Modular.Montgomery.{radix-pos, montmul_lem}
use llvm_metal.Modular.Congruence.{
  IsCongruent, IsCongruent-of_eq, IsCongruent-of_mod, IsCongruent-trans, IsCongruent-add,
  IsCongruent-mul, IsCongruent-cancel, IsCongruent-below,
}

-- What the modulus and its constant must satisfy: `inverse` is 1 / R modulo n.
pub record IsModulus (n : List ℕ) (n0inv inverse : ℕ) : Type 0 where
  pub limbs : IsLimbs n
  pub some_limbs : 0 < length n
  pub low_inverse : (value n % word * n0inv + 1) % word ≡ 0
  pub radix_inverse : IsCongruent (value n) (radix (length n) * inverse) 1

-- Limbs of a number below the modulus.
pub record IsReducedLimbs (n r : List ℕ) : Type 0 where
  pub size : length r ≡ length n
  pub limbs : IsLimbs r
  pub below : value r < value n

-- The limbs stand for x: they are those of a number below n that is x * R modulo n.
pub record IsForm (n : List ℕ) (x : ℕ) (r : List ℕ) : Type 0 where
  pub reduced : IsReducedLimbs n r
  pub residue : IsCongruent (value n) (value r) (x * radix (length n))

lt-le : {x y : ℕ} → x < y → x ≤ y
lt-le h = omega arith

module _ (n : List ℕ) (n0inv inverse : ℕ) (good : IsModulus n n0inv inverse) where
  -- `montmul` of any limbs and reduced limbs divides the product by R.
  pub montmul_reduced :
      (a b : List ℕ)
      → length a ≡ length n
      → IsLimbs a
      → IsReducedLimbs n b
      → IsReducedLimbs n (montmul a b n n0inv)
        × IsCongruent (value n) (value (montmul a b n n0inv) * radix (length n)) (value a * value b)
  montmul_reduced a b ea la rb =
      let high : value a < radix (length n) = rw (ap radix ea) at (value-lt a la) in
      let small : value a * value b < value n * radix (length n) = omega (
        arith,
        mul-lt-mul_of_pos_left rb.below (radix-pos (length n)),
        mul-le-mul_right (value b) (lt-le high),
      ) in
      let r =
        montmul_lem a b n n0inv la rb.limbs good.limbs ea rb.size good.some_limbs good.low_inverse
          small in
      (
        record { size = r.size; limbs = r.limbs; below = r.below },
        IsCongruent-of_mod _ _ _ r.congruent,
      )

  -- Out of Montgomery form: the product of a form and limbs that stand for 1 is the number itself.
  pub montmul-leave :
      (a b : List ℕ) (x : ℕ)
      → IsForm n x a
      → length b ≡ length n
      → IsLimbs b
      → value b ≡ 1
      → IsReducedLimbs n (montmul a b n n0inv) × (value (montmul a b n n0inv) ≡ x % value n)
  montmul-leave a b x f eb lb one =
      let u = f.reduced in
      let high : value b < radix (length n) = rw (ap radix eb) at (value-lt b lb) in
      let small : value a * value b < value n * radix (length n) = omega (
        arith,
        ap (λ (z : ℕ). value a * z) one,
        u.below,
        mul-le-mul_left (value n) (lt-le (rw one at high)),
      ) in
      let r =
        montmul_lem a b n n0inv u.limbs lb good.limbs u.size eb good.some_limbs good.low_inverse
          small in
      let product : value a * value b ≡ value a = omega (arith, ap (λ (z : ℕ). value a * z) one) in
      (
        record { size = r.size; limbs = r.limbs; below = r.below },
        IsCongruent-below r.below (
            IsCongruent-cancel (radix (length n)) inverse good.radix_inverse (
              IsCongruent-trans (IsCongruent-of_mod _ _ _ r.congruent)
                (IsCongruent-trans (IsCongruent-of_eq product) f.residue))),
      )

  -- The limbs a, taken as they are, enter: with b standing for y * R the product stands for a * y.
  pub montmul-IsForm_of :
      (a b : List ℕ) (x y z : ℕ)
      → length a ≡ length n
      → IsLimbs a
      → IsReducedLimbs n b
      → IsCongruent (value n) (value a) x
      → IsCongruent (value n) (value b) y
      → x * y ≡ z * radix (length n) * radix (length n)
      → IsForm n z (montmul a b n n0inv)
  montmul-IsForm_of a b x y z ea la rb p q e =
      let (reduced, c) = montmul_reduced a b ea la rb in
      record {
        reduced = reduced;
        residue =
            IsCongruent-cancel (radix (length n)) inverse good.radix_inverse
              (IsCongruent-trans c (IsCongruent-trans (IsCongruent-mul p q) (IsCongruent-of_eq e)));
      }

  -- The product of two forms stands for the product.
  pub montmul-IsForm :
      (a b : List ℕ) (x y : ℕ)
      → IsForm n x a
      → IsForm n y b
      → IsForm n (x * y) (montmul a b n n0inv)
  montmul-IsForm a b x y p q =
      montmul-IsForm_of a b _ _ (x * y) p.reduced.size p.reduced.limbs q.reduced p.residue q.residue
        (omega arith)

  -- The sum of two forms stands for the sum.
  pub modadd-IsForm :
      (a b : List ℕ) (x y : ℕ) → IsForm n x a → IsForm n y b → IsForm n (x + y) (modadd a b n)
  modadd-IsForm a b x y p q =
      let u = p.reduced in
      let v = q.reduced in
      let r = modadd_lem a b n u.limbs v.limbs good.limbs u.size v.size u.below v.below in
      let sum : IsCongruent (value n) (value (modadd a b n)) (value a + value b) = elim r.once [
        | inl e ↦ IsCongruent-of_eq e
        | inr e ↦ record { left = 1; right = 0; same = omega (arith, e) }
      ] in
      record {
        reduced = record { size = r.size; limbs = r.limbs; below = r.below };
        residue = IsCongruent-trans sum (
            IsCongruent-trans (IsCongruent-add p.residue q.residue)
              (IsCongruent-of_eq (omega arith)));
      }
