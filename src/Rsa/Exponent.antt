-- ===== src/Rsa/Exponent.antt =====
-- `modexp_half` of examples/rsa/kernel/src/lib.rs is exponentiation modulo one prime of the key.
use llvm_metal.Base.{
  ℕ, zero, suc, ◌+◌, ◌-◌, ◌*◌, ◌%◌, ◌^◌, ◌≡◌, refl, sym, ◌∙◌, ap, List, [], ◌∷◌, arith, length,
  take, drop, replicate,
}
use native.Mathlib.Nat.{pow-zero}
use llvm_metal.Modular.Value.{radix, value, IsLimbs, IsLimbs-replicate}
use llvm_metal.Modular.Congruence.{IsCongruent-of_eq}
use llvm_metal.Modular.Residue.{
  IsModulus, IsReducedLimbs, IsForm, montmul-leave, montmul-IsForm_of, modadd-IsForm,
}
use llvm_metal.Rsa.{HalfKey, hl, tbl, enter, modexp_half, powers, ladder, digits_of}
use llvm_metal.Rsa.Ladder.{ladder-IsForm, digits_of-IsDigits, digits_of-value}

-- What the host promises of half a key, with R = 2 ^ 1024: `inverse` is 1 / R modulo the prime.
pub record IsHalfKey (key : HalfKey) (inverse : ℕ) : Type 0 where
  pub modulus : IsModulus key.modulus key.n0inv inverse
  pub count : length key.modulus ≡ hl
  pub exponent : IsLimbs key.exponent
  pub one : IsForm key.modulus 1 key.one
  pub r2 : IsForm key.modulus (radix hl) key.r2
  pub r3 : IsForm key.modulus (radix hl * radix hl) key.r3

pub take-drop-value :
    (k : ℕ) (xs : List ℕ) (rest : ℕ)
    → length xs ≡ k + rest
    → value xs ≡ value (take k xs) + radix k * value (drop k xs)
take-drop-value zero xs rest e = omega arith
take-drop-value (suc k) [] rest e = absurd (omega arith)
take-drop-value (suc k) (x ∷ xs) rest e = omega (arith, take-drop-value k xs rest (omega arith))

pub take-IsLimbs : (k : ℕ) (xs : List ℕ) → IsLimbs xs → IsLimbs (take k xs)
take-IsLimbs zero xs h = tt
take-IsLimbs (suc k) [] h = tt
take-IsLimbs (suc k) (x ∷ xs) (h, hs) = (h, take-IsLimbs k xs hs)

pub drop-IsLimbs : (k : ℕ) (xs : List ℕ) → IsLimbs xs → IsLimbs (drop k xs)
drop-IsLimbs zero xs h = h
drop-IsLimbs (suc k) [] h = tt
drop-IsLimbs (suc k) (x ∷ xs) (h, hs) = drop-IsLimbs k xs hs

pub length-take-drop :
    (k : ℕ) (xs : List ℕ) (rest : ℕ)
    → length xs ≡ k + rest
    → (length (take k xs) ≡ k) × (length (drop k xs) ≡ rest)
length-take-drop zero xs rest e = (refl, omega arith)
length-take-drop (suc k) [] rest e = absurd (omega arith)
length-take-drop (suc k) (x ∷ xs) rest e =
    let (a, b) = length-take-drop k xs rest (omega arith) in (ap suc a, b)

take-whole : (k : ℕ) (xs : List ℕ) → length xs ≡ k → take k xs ≡ xs
take-whole zero [] e = refl
take-whole zero (x ∷ xs) e = absurd (omega arith)
take-whole (suc k) [] e = refl
take-whole (suc k) (x ∷ xs) e = ap (λ (r : List ℕ). x ∷ r) (take-whole k xs (omega arith))

low_algebra : (v r p : ℕ) → p ≡ r → v * (r * p) ≡ v * p * p
low_algebra v r p e = omega (arith, ap (λ (z : ℕ). v * z * p) e)

high_algebra : (v r p : ℕ) → p ≡ r → v * (r * r * p) ≡ v * r * p * p
high_algebra v r p e = omega (arith, ap (λ (z : ℕ). v * r * z * p) e)

total_algebra : (m l h h' r : ℕ) → m ≡ l + r * h' → h ≡ h' → l + h * r ≡ m
total_algebra m l h h' r e f = omega (arith, e, ap (λ (z : ℕ). z * r) f)

module _ (key : HalfKey) (inverse : ℕ) (good : IsHalfKey key inverse) where
  -- The message, twice as long as the modulus, enters Montgomery form without a division.
  enter-IsForm :
      (message : List ℕ)
      → length message ≡ hl + hl
      → IsLimbs message
      → IsForm key.modulus (value message) (enter message key)
  unfolding enter
  enter-IsForm message size limbs =
      let (low_size, high_size) = length-take-drop hl message hl size in
      let whole = take-whole hl (drop hl message) high_size in
      let low = take hl message in
      let high = take hl (drop hl message) in
      let r = radix hl in
      let count = ap radix good.count in
      let part_low =
        montmul-IsForm_of key.modulus key.n0inv inverse good.modulus low key.r2 (value low)
          (r * radix (length key.modulus)) (value low) (low_size ∙ sym good.count)
          (take-IsLimbs hl message limbs) good.r2.reduced (IsCongruent-of_eq refl) good.r2.residue
          (low_algebra (value low) r _ count) in
      let part_high =
        montmul-IsForm_of key.modulus key.n0inv inverse good.modulus high key.r3 (value high)
          (r * r * radix (length key.modulus)) (value high * r)
          (ap length whole ∙ high_size ∙ sym good.count)
          (take-IsLimbs hl (drop hl message) (drop-IsLimbs hl message limbs)) good.r3.reduced
          (IsCongruent-of_eq refl) good.r3.residue (high_algebra (value high) r _ count) in
      let total : value low + value high * r ≡ value message =
        total_algebra _ _ _ _ r (take-drop-value hl message hl size) (ap value whole) in
      rw total at
        (modadd-IsForm key.modulus key.n0inv inverse good.modulus _ _ _ _ part_low part_high)

  -- `modexp_half` leaves reduced limbs of the power.
  pub modexp_half-IsReducedLimbs :
      (message : List ℕ)
      → length message ≡ hl + hl
      → IsLimbs message
      → IsReducedLimbs key.modulus (modexp_half message key)
        × (value (modexp_half message key) ≡ value message ^ value key.exponent % value key.modulus)
  unfolding modexp_half
  modexp_half-IsReducedLimbs message size limbs =
      let x = enter message key in
      let table = key.one ∷ powers key.modulus key.n0inv x (tbl - 1) x in
      let acc = ladder key.modulus key.n0inv table (digits_of key.exponent) key.one in
      let entered = enter-IsForm message size limbs in
      let unit : IsForm key.modulus (value message ^ 0) key.one =
        rw (pow-zero (value message)) good.one in
      let raised =
        ladder-IsForm key.modulus key.n0inv inverse good.modulus key.one x (value message)
          (digits_of key.exponent) key.one 0 good.one entered (digits_of-IsDigits key.exponent)
          unit in
      rw (ap (λ (e : ℕ). value message ^ e) (digits_of-value key.exponent good.exponent)) at (
        montmul-leave key.modulus key.n0inv inverse good.modulus acc (1 ∷ replicate (hl - 1) 0) _
          raised (sym good.count) (omega arith, IsLimbs-replicate (hl - 1)) refl)

  -- For a message of 64 limbs and a key that keeps its promises, `modexp_half` is the message to the
  -- power of the exponent, modulo the prime.
  pub modexp_half_lem :
      (message : List ℕ)
      → length message ≡ hl + hl
      → IsLimbs message
      → value (modexp_half message key) ≡ value message ^ value key.exponent % value key.modulus
  modexp_half_lem message size limbs = (modexp_half-IsReducedLimbs message size limbs).1
