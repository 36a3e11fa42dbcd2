-- ===== src/Modular/BigEndian.antt =====
-- Numbers whose most significant word is the first, as digests and the comparisons of
-- examples/shallenge/kernel/src/lib.rs and examples/rsa/src/key.rs take them.
use llvm_metal.Base.{
  ℕ, suc, ◌+◌, ◌-◌, ◌*◌, ◌<◌, ◌≤◌, ◌≡◌, refl, ◌∙◌, ap, List, [], ◌∷◌, ◌++◌, arith, length,
  length-append, ltb,
}
use mathlib.Core.List.{reverse, reverse-cons}
use native.Mathlib.Nat.{mul-le-mul_right}
use llvm_metal.Modular.Value.{word, radix, value, IsLimbs, IsLimbs-append}

-- The number of words whose most significant is the first.
abbrev pub big_endian : List ℕ → ℕ
big_endian [] = 0
big_endian (x ∷ xs) = x * radix (length xs) + big_endian xs

pub big_endian-lt : (xs : List ℕ) → IsLimbs xs → big_endian xs < radix (length xs)
big_endian-lt [] h = omega arith
big_endian-lt (x ∷ xs) (h, hs) =
    let most : x ≤ word - 1 = omega arith in
    omega (arith, big_endian-lt xs hs, mul-le-mul_right (radix (length xs)) most)

pub high_word : (r x y h b : ℕ) → h < b → x < r → h * r + x < b * r + y
high_word r x y h b less small =
    let step : suc h ≤ b = omega arith in omega (arith, mul-le-mul_right r step)

pub shift_ltb : (c x y : ℕ) → ltb (c + x) (c + y) ≡ ltb x y
shift_ltb c x y = ground arith

-- Reversed, the limbs are the words of their number.
append_word : (xs : List ℕ) (y : ℕ) → big_endian (xs ++ y ∷ []) ≡ big_endian xs * word + y
append_word [] y = omega arith
append_word (x ∷ xs) y =
    let count : length (xs ++ y ∷ []) ≡ suc (length xs) =
      omega (arith, length-append xs (y ∷ [])) in
    omega (arith, append_word xs y, ap (λ (k : ℕ). x * radix k) count)

pub big_endian-reverse : (xs : List ℕ) → big_endian (reverse xs) ≡ value xs
big_endian-reverse [] = refl
big_endian-reverse (x ∷ xs) =
    rw (reverse-cons x xs, append_word (reverse xs) x, big_endian-reverse xs) (omega arith)

pub IsLimbs-reverse : (xs : List ℕ) → IsLimbs xs → IsLimbs (reverse xs)
IsLimbs-reverse [] h = tt
IsLimbs-reverse (x ∷ xs) (h, hs) =
    rw (reverse-cons x xs) (IsLimbs-append (reverse xs) (x ∷ []) (IsLimbs-reverse xs hs) (h, tt))

pub length-reverse : (xs : List ℕ) → length (reverse xs) ≡ length xs
length-reverse [] = refl
length-reverse (x ∷ xs) =
    rw (reverse-cons x xs) (length-append (reverse xs) (x ∷ []) ∙ omega (arith, length-reverse xs))
