-- ===== src/Rsa/Key/Inverse.antt =====
-- `sign_key` of examples/rsa/src/key.rs: the comparison of the primes, and the inverse of one of them by
-- square-and-multiply.
use llvm_metal.Base.{
  ℕ, zero, suc, ◌+◌, ◌-◌, ◌*◌, ◌/◌, ◌^◌, ◌<◌, ◌≤◌, ◌≡◌, inl, inr, refl, sym, ◌∙◌, ap, some, List,
  [], ◌∷◌, arith, length, get_or, ltb, ◌==◌, Bool-cases, lt→ltb, le→ltb, ltb→lt, ==_iff, pow-add,
  pow_one,
}
use mathlib.Core.List.{reverse}
use native.Mathlib.Nat.{pow-zero}
use llvm_metal.Modular.{montmul}
use llvm_metal.Modular.Value.{radix, value, IsLimbs}
use llvm_metal.Modular.Scan.{bit_of, bit_of-lt, scan_step, scan_start, scan_end}
use llvm_metal.Modular.BigEndian.{
  big_endian, big_endian-lt, high_word, shift_ltb, big_endian-reverse, IsLimbs-reverse,
  length-reverse,
}
use llvm_metal.Modular.Congruence.{IsCongruent-of_eq}
use llvm_metal.Modular.Residue.{IsForm, montmul-IsForm, montmul-IsForm_of}
use llvm_metal.Rsa.{HalfKey, hl}
use llvm_metal.Rsa.Exponent.{IsHalfKey}
use llvm_metal.Rsa.Key.{greater, less_two, inverse_step, inverse_steps, inverse}

-- Words of the same count compare as their numbers.
greater_lem :
    (xs ys : List ℕ)
    → IsLimbs xs
    → IsLimbs ys
    → length xs ≡ length ys
    → greater xs ys ≡ ltb (big_endian ys) (big_endian xs)
unfolding greater
greater_lem [] [] h k e = refl
greater_lem [] (y ∷ ys) h k e = absurd (omega arith)
greater_lem (x ∷ xs) [] h k e = absurd (omega arith)
greater_lem (x ∷ xs) (y ∷ ys) (h, hs) (k, ks) e =
    let size : length xs ≡ length ys = omega arith in
    let power = ap radix size in
    elim (Bool-cases (x == y)) [
      | inl equal ↦
          let same : x ≡ y = (==_iff x y).0 equal in
          rw (equal, power, same, shift_ltb (y * radix (length ys)) (big_endian ys) (big_endian xs))
            (greater_lem xs ys hs ks size)
      | inr differ ↦ elim (Bool-cases (ltb y x)) [
        | inl less ↦
            let whole =
              high_word (radix (length ys)) (big_endian ys) (big_endian xs) y x (ltb→lt y x less)
                (big_endian-lt ys ks) in
            rw (differ, less, power, lt→ltb _ _ whole) refl
        | inr more ↦
            let above : x < y = ground arith in
            let whole =
              high_word (radix (length ys)) (big_endian xs) (big_endian ys) x y above
                (rw power at (big_endian-lt xs hs)) in
            let whole_le : x * radix (length ys) + big_endian xs
                ≤ y * radix (length ys) + big_endian ys =
              omega (arith, whole) in
            rw (differ, more, power, le→ltb _ _ whole_le) refl
      ]
    ]

-- Limbs, the lowest first, of the same count compare as their numbers when reversed.
pub greater-reverse :
    (xs ys : List ℕ)
    → IsLimbs xs
    → IsLimbs ys
    → length xs ≡ length ys
    → greater (reverse xs) (reverse ys) ≡ ltb (value ys) (value xs)
greater-reverse xs ys h k e =
    rw (big_endian-reverse xs, big_endian-reverse ys) at
      (greater_lem (reverse xs) (reverse ys) (IsLimbs-reverse xs h) (IsLimbs-reverse ys k)
        (length-reverse xs ∙ e ∙ sym (length-reverse ys)))

-- Limbs of the number less two, where the low limb does not borrow.
pub less_two_lem :
    (xs : List ℕ)
    → IsLimbs xs
    → 1 < get_or xs 0 0
    → (r : List ℕ) × (less_two xs ≡ some r)
      × (length r ≡ length xs)
      × IsLimbs r
      × (value r + 2 ≡ value xs)
unfolding less_two
less_two_lem [] h big = absurd (omega arith)
less_two_lem (x ∷ xs) (h, hs) big =
    let enough = le→ltb x 2 (omega arith) in
    ((x - 2) ∷ xs, rw enough refl, refl, (omega arith, hs), omega arith)

entered : (v r p : ℕ) → p ≡ r → v * (r * p) ≡ v * p * p
entered v r p e = omega (arith, ap (λ (z : ℕ). v * z * p) e)

module _ (p : HalfKey) (r_inverse : ℕ) (good : IsHalfKey p r_inverse) where
  cast : {x y : ℕ} {r : List ℕ} → x ≡ y → IsForm p.modulus x r → IsForm p.modulus y r
  cast {r} e f = rw e at f

  step-IsForm :
      (base exponent acc : List ℕ) (x bit : ℕ)
      → IsLimbs exponent
      → IsForm p.modulus x base
      → IsForm p.modulus (x ^ (value exponent / 2 ^ suc bit)) acc
      → IsForm p.modulus (x ^ (value exponent / 2 ^ bit)) (inverse_step p base exponent bit acc)
  unfolding inverse_step
  step-IsForm base exponent acc x bit limbs fb fa =
      let e = value exponent / 2 ^ suc bit in
      let product = montmul-IsForm p.modulus p.n0inv r_inverse good.modulus in
      let squared : IsForm p.modulus (x ^ (e + e)) (montmul acc acc p.modulus p.n0inv) =
        cast (sym (pow-add x e e)) (product acc acc (x ^ e) (x ^ e) fa fa) in
      elim (Bool-cases (bit_of exponent bit == 1)) [
        | inl set ↦
            let one : bit_of exponent bit ≡ 1 = (==_iff (bit_of exponent bit) 1).0 set in
            let total : e + e + 1 ≡ value exponent / 2 ^ bit =
              omega (arith, scan_step exponent bit limbs, one) in
            let power : x ^ (e + e) * x ≡ x ^ (e + e + 1) =
              sym (pow-add x (e + e) 1 ∙ ap (λ (z : ℕ). x ^ (e + e) * z) (pow_one x)) in
            rw set (
              cast (power ∙ ap (λ (k : ℕ). x ^ k) total)
                (product (montmul acc acc p.modulus p.n0inv) base (x ^ (e + e)) x squared fb))
        | inr clear ↦
            let none_set : bit_of exponent bit ≡ 0 = ground (arith, bit_of-lt exponent bit) in
            let total : e + e ≡ value exponent / 2 ^ bit =
              omega (arith, scan_step exponent bit limbs, none_set) in
            rw clear (cast (ap (λ (k : ℕ). x ^ k) total) squared)
      ]

  steps-IsForm :
      (base exponent : List ℕ) (x : ℕ) (count : ℕ) (acc : List ℕ)
      → IsLimbs exponent
      → IsForm p.modulus x base
      → IsForm p.modulus (x ^ (value exponent / 2 ^ count)) acc
      → IsForm p.modulus (x ^ value exponent) (inverse_steps p base exponent count acc)
  unfolding inverse_steps
  steps-IsForm base exponent x zero acc limbs fb fa =
      cast (ap (λ (k : ℕ). x ^ k) (scan_end (value exponent))) fa
  steps-IsForm base exponent x (suc bit) acc limbs fb fa =
      steps-IsForm base exponent x bit (inverse_step p base exponent bit acc) limbs fb
        (step-IsForm base exponent acc x bit limbs fb fa)

  -- `inverse` stands for the power of the other prime by the exponent.
  pub inverse-IsForm :
      (q : HalfKey) (exponent : List ℕ)
      → IsLimbs exponent
      → length exponent ≡ hl
      → IsLimbs q.modulus
      → length q.modulus ≡ hl
      → IsForm p.modulus (value q.modulus ^ value exponent) (inverse p q exponent)
  unfolding inverse
  inverse-IsForm q exponent le se lq sq =
      let v = value q.modulus in
      let base =
        montmul-IsForm_of p.modulus p.n0inv r_inverse good.modulus q.modulus p.r2 v
          (radix hl * radix (length p.modulus)) v (sq ∙ sym good.count) lq good.r2.reduced
          (IsCongruent-of_eq refl) good.r2.residue (entered v (radix hl) _ (ap radix good.count)) in
      let none_read : value exponent / 2 ^ (32 * hl) ≡ 0 =
        ap (λ (k : ℕ). value exponent / 2 ^ (32 * k)) (sym se) ∙ scan_start exponent le in
      let unit : IsForm p.modulus (v ^ (value exponent / 2 ^ (32 * hl))) p.one =
        cast (sym (ap (λ (k : ℕ). v ^ k) none_read ∙ pow-zero v)) good.one in
      steps-IsForm _ exponent v (32 * hl) p.one le base unit
