-- ===== src/Modular/Value.antt =====
-- The number that a list of limbs stands for.
use llvm_metal.Base.{
  ℕ, zero, suc, ◌+◌, ◌*◌, ◌^◌, ◌<◌, ◌≡◌, refl, List, [], ◌∷◌, ◌++◌, arith, length, replicate,
}

abbrev pub word : ℕ
word = 2 ^ 32

-- 2 ^ (32 * count)
abbrev pub radix : ℕ → ℕ
radix zero = 1
radix (suc count) = word * radix count

abbrev pub value : List ℕ → ℕ
value [] = 0
value (x ∷ xs) = x + word * value xs

abbrev pub IsLimbs : List ℕ → Type 0
IsLimbs [] = Unit
IsLimbs (x ∷ xs) = (x < word) × IsLimbs xs

pub value-lt : (xs : List ℕ) → IsLimbs xs → value xs < radix (length xs)
value-lt [] h = omega arith
value-lt (x ∷ xs) (h, hs) = omega (arith, value-lt xs hs)

pub value-append : (xs ys : List ℕ) → value (xs ++ ys) ≡ value xs + radix (length xs) * value ys
value-append [] ys = omega arith
value-append (x ∷ xs) ys = omega (arith, value-append xs ys)

pub IsLimbs-append : (xs ys : List ℕ) → IsLimbs xs → IsLimbs ys → IsLimbs (xs ++ ys)
IsLimbs-append [] ys h k = k
IsLimbs-append (x ∷ xs) ys (h, hs) k = (h, IsLimbs-append xs ys hs k)

pub value-replicate : (count : ℕ) → value (replicate count 0) ≡ 0
value-replicate zero = refl
value-replicate (suc count) = omega (arith, value-replicate count)

pub IsLimbs-replicate : (count : ℕ) → IsLimbs (replicate count 0)
IsLimbs-replicate zero = tt
IsLimbs-replicate (suc count) = (omega arith, IsLimbs-replicate count)
