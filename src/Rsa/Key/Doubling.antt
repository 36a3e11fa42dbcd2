-- ===== src/Rsa/Key/Doubling.antt =====
-- `power_of_two` of examples/rsa/src/key.rs, and that an odd modulus has an inverse of R.
use llvm_metal.Base.{
  ℕ, zero, suc, ◌+◌, ◌-◌, ◌*◌, ◌/◌, ◌%◌, ◌^◌, ◌<◌, ◌≡◌, inl, inr, ap, List, [], ◌∷◌, arith, length,
  replicate, length-replicate,
}
use native.Mathlib.Nat.{pow-suc, pow-zero}
use llvm_metal.Modular.{modadd}
use llvm_metal.Modular.Value.{value, IsLimbs, value-replicate, IsLimbs-replicate}
use llvm_metal.Modular.Add.{modadd_lem}
use llvm_metal.Modular.Congruence.{
  IsCongruent, IsCongruent-of_eq, IsCongruent-trans, IsCongruent-add, IsCongruent-mul,
}
use llvm_metal.Modular.Residue.{IsReducedLimbs}
use llvm_metal.Rsa.Key.{doublings, power_of_two}

pub positive_length : (m : List ℕ) → 1 < value m → 0 < length m
positive_length [] big = absurd (omega arith)
positive_length (x ∷ xs) big = omega arith

module _ (m : List ℕ) (limbs : IsLimbs m) where
  doublings_lem :
      (count : ℕ) (x : List ℕ) (e total : ℕ)
      → e + count ≡ total
      → IsReducedLimbs m x
      → IsCongruent (value m) (value x) (2 ^ e)
      → IsReducedLimbs m (doublings m count x)
        × IsCongruent (value m) (value (doublings m count x)) (2 ^ total)
  unfolding doublings
  doublings_lem zero x e total p r c =
      let q : e ≡ total = omega arith in
      (r, IsCongruent-trans c (IsCongruent-of_eq (ap (λ (k : ℕ). 2 ^ k) q)))
  doublings_lem (suc count) x e total p r c =
      let s = modadd_lem x x m r.limbs r.limbs limbs r.size r.size r.below r.below in
      let sum : IsCongruent (value m) (value (modadd x x m)) (value x + value x) = elim s.once [
        | inl same ↦ IsCongruent-of_eq same
        | inr less ↦ record { left = 1; right = 0; same = omega (arith, less) }
      ] in
      let twice : 2 ^ e + 2 ^ e ≡ 2 ^ suc e = omega (arith, pow-suc 2 e) in
      doublings_lem count (modadd x x m) (suc e) total (omega arith)
        (record { size = s.size; limbs = s.limbs; below = s.below })
        (IsCongruent-trans sum (IsCongruent-trans (IsCongruent-add c c) (IsCongruent-of_eq twice)))

  -- For a modulus above 1, `power_of_two` is the power of two modulo it.
  pub power_of_two_lem :
      (bits : ℕ)
      → 1 < value m
      → IsReducedLimbs m (power_of_two bits m)
        × IsCongruent (value m) (value (power_of_two bits m)) (2 ^ bits)
  unfolding power_of_two
  power_of_two_lem bits big =
      let start : List ℕ = 1 ∷ replicate (length m - 1) 0 in
      let one : value start ≡ 1 = omega (arith, value-replicate (length m - 1)) in
      let some_limbs : 0 < length m = positive_length m big in
      doublings_lem bits start 0 bits (omega arith)
        (record {
          size = omega (arith, length-replicate (length m - 1) (zero));
          limbs = (omega arith, IsLimbs-replicate (length m - 1));
          below = omega (arith, one);
        })
        (IsCongruent-of_eq one)

-- For an odd modulus the half of its successor is 1 / 2, and a power of that is 1 / R.
pub halves_lem : (n count : ℕ) → n % 2 ≡ 1 → IsCongruent n (2 ^ count * (n / 2 + 1) ^ count) 1
halves_lem n zero odd = IsCongruent-of_eq (omega (arith, pow-zero (n / 2 + 1)))
halves_lem n (suc count) odd =
    let h = n / 2 + 1 in
    let two : IsCongruent n (2 * h) 1 = record { left = 0; right = 1; same = omega arith } in
    let split : 2 ^ suc count * h ^ suc count ≡ 2 ^ count * h ^ count * (2 * h) = omega (
      arith,
      ap (λ (z : ℕ). z * h ^ suc count) (pow-suc 2 count),
      ap (λ (z : ℕ). 2 * 2 ^ count * z) (pow-suc h count),
    ) in
    IsCongruent-trans (IsCongruent-of_eq split) (IsCongruent-mul (halves_lem n count odd) two)
