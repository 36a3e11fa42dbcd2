-- ===== src/P256/Laws.antt =====
-- What the operations of examples/p256/kernel/src/field.rs do to the residues they stand for.
use llvm_metal.Base.{
  ℕ, ◌+◌, ◌-◌, ◌*◌, ◌%◌, ◌^◌, ◌≡◌, inl, inr, refl, sym, ◌∙◌, ap, List, ◌∷◌, arith, length,
  replicate,
}
use native.Mathlib.Nat.{pow-zero}
use llvm_metal.Modular.{modadd, modsub}
use llvm_metal.Modular.Value.{radix, value, IsLimbs, IsLimbs-replicate}
use llvm_metal.Modular.Add.{modsub_lem}
use llvm_metal.Modular.Congruence.{
  IsCongruent, IsCongruent-of_eq, IsCongruent-trans, IsCongruent-sym, IsCongruent-add,
  IsCongruent-mul_right,
}
use llvm_metal.Modular.Residue.{
  IsModulus, IsReducedLimbs, IsForm, montmul-leave, montmul-IsForm_of, montmul-IsForm,
  modadd-IsForm,
}
use llvm_metal.Rsa.{digits_of}
use llvm_metal.Rsa.Ladder.{ladder-IsForm, digits_of-IsDigits, digits_of-value}
use llvm_metal.P256.{Field, limb_count, mul, add, sub, triple, enter, leave, invert}

-- What the host promises of a field, with R = 2 ^ 256: `inverse` is 1 / R modulo the prime.
pub record IsField (f : Field) (inverse : ℕ) : Type 0 where
  pub modulus : IsModulus f.modulus f.n0inv inverse
  pub count : length f.modulus ≡ limb_count
  pub one : IsForm f.modulus 1 f.one
  pub r2 : IsForm f.modulus (radix limb_count) f.r2
  pub exponent : IsLimbs f.inverse_exponent

entered : (v r p : ℕ) → p ≡ r → v * (r * p) ≡ v * p * p
entered v r p e = omega (arith, ap (λ (z : ℕ). v * z * p) e)

-- A summand can be taken off both sides.
IsCongruent-less : {n x y : ℕ} (w : ℕ) → IsCongruent n (x + w) (y + w) → IsCongruent n x y
IsCongruent-less w c = record { left = c.left; right = c.right; same = omega (arith, c.same) }

module _ (f : Field) (inverse : ℕ) (good : IsField f inverse) where
  -- `enter` of any eight limbs stands for their number.
  pub enter-IsForm :
      (a : List ℕ) → length a ≡ limb_count → IsLimbs a → IsForm f.modulus (value a) (enter f a)
  unfolding enter mul
  enter-IsForm a size limbs =
      montmul-IsForm_of f.modulus f.n0inv inverse good.modulus a f.r2 (value a)
        (radix limb_count * radix (length f.modulus)) (value a) (size ∙ sym good.count) limbs
        good.r2.reduced (IsCongruent-of_eq refl) good.r2.residue
        (entered (value a) (radix limb_count) _ (ap radix good.count))

  -- `triple` stands for three times the number.
  pub triple-IsForm :
      (a : List ℕ) (x : ℕ) → IsForm f.modulus x a → IsForm f.modulus (x + x + x) (triple f a)
  unfolding triple add
  triple-IsForm a x form =
      modadd-IsForm f.modulus f.n0inv inverse good.modulus (modadd a a f.modulus) a (x + x) x
        (modadd-IsForm f.modulus f.n0inv inverse good.modulus a a x x form form) form

  -- `leave` gives reduced limbs of the number.
  pub leave_lem :
      (a : List ℕ) (x : ℕ)
      → IsForm f.modulus x a
      → IsReducedLimbs f.modulus (leave f a) × (value (leave f a) ≡ x % value f.modulus)
  unfolding leave mul
  leave_lem a x form =
      montmul-leave f.modulus f.n0inv inverse good.modulus a (1 ∷ replicate (limb_count - 1) 0) x
        form (sym good.count) (omega arith, IsLimbs-replicate (limb_count - 1)) refl

  -- `leave` after `enter` is the number modulo the prime, for any 256-bit number.
  pub leave-enter :
      (a : List ℕ)
      → length a ≡ limb_count
      → IsLimbs a
      → value (leave f (enter f a)) ≡ value a % value f.modulus
  leave-enter a size limbs = (leave_lem (enter f a) (value a) (enter-IsForm a size limbs)).1

  -- `invert` stands for the power by the field's exponent, which for a prime field and the exponent
  -- m - 2 is the inverse.
  pub invert-IsForm :
      (a : List ℕ) (x : ℕ)
      → IsForm f.modulus x a
      → IsForm f.modulus (x ^ value f.inverse_exponent) (invert f a)
  unfolding invert
  invert-IsForm a x form =
      let unit : IsForm f.modulus (x ^ 0) f.one = rw (pow-zero x) good.one in
      rw (ap (λ (e : ℕ). x ^ e) (digits_of-value f.inverse_exponent good.exponent)) at (
        ladder-IsForm f.modulus f.n0inv inverse good.modulus f.one a x
          (digits_of f.inverse_exponent) f.one 0 good.one form
          (digits_of-IsDigits f.inverse_exponent) unit)

  sub-IsForm :
      (a b : List ℕ) (x y z : ℕ)
      → IsForm f.modulus x a
      → IsForm f.modulus y b
      → IsCongruent (value f.modulus) (z + y) x
      → IsForm f.modulus z (sub f a b)
  unfolding sub
  sub-IsForm a b x y z p q c =
      let u = p.reduced in
      let v = q.reduced in
      let r =
        modsub_lem a b f.modulus u.limbs v.limbs good.modulus.limbs u.size v.size u.below v.below in
      let power = radix (length f.modulus) in
      let back : IsCongruent (value f.modulus) (value (modsub a b f.modulus) + value b) (value a) =
        elim r.total [
          | inl (_, e) ↦ IsCongruent-of_eq e
          | inr (_, e) ↦ record { left = 0; right = 1; same = omega (arith, e) }
        ] in
      let wanted : IsCongruent (value f.modulus) (value a) (z * power + value b) =
        IsCongruent-trans p.residue (
          IsCongruent-trans (IsCongruent-sym (IsCongruent-mul_right power c)) (
            IsCongruent-trans (IsCongruent-of_eq (omega arith))
              (IsCongruent-add (IsCongruent-of_eq refl) (IsCongruent-sym q.residue)))) in
      record {
        reduced = record { size = r.size; limbs = r.limbs; below = r.below };
        residue = IsCongruent-less (value b) (IsCongruent-trans back wanted);
      }

  -- Of numbers x and y in Montgomery form `mul`, `add` and `triple` give the product, the sum and the
  -- triple, and `sub` stands for any z that with y makes x modulo the prime.
  pub field-IsForm :
      (a b : List ℕ) (x y z : ℕ)
      → IsForm f.modulus x a
      → IsForm f.modulus y b
      → IsCongruent (value f.modulus) (z + y) x
      → IsForm f.modulus (x * y) (mul f a b)
        × IsForm f.modulus (x + y) (add f a b)
        × IsForm f.modulus (x + x + x) (triple f a)
        × IsForm f.modulus z (sub f a b)
  unfolding mul add triple
  field-IsForm a b x y z p q c =
      let sum = modadd-IsForm f.modulus f.n0inv inverse good.modulus in
      (
        montmul-IsForm f.modulus f.n0inv inverse good.modulus a b x y p q,
        sum a b x y p q,
        sum (modadd a a f.modulus) a (x + x) x (sum a a x x p p) p,
        sub-IsForm a b x y z p q c,
      )
