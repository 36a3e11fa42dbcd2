-- ===== src/Modular/Scan.antt =====
-- Reading the bits of limbs, the highest first, as the loops of examples/rsa/src/key.rs and
-- examples/p256/src/curve.rs do.
use llvm_metal.Base.{
  ℕ, zero, suc, ◌+◌, ◌-◌, ◌*◌, ◌/◌, ◌%◌, ◌^◌, ◌<◌, ◌≡◌, refl, sym, ◌∙◌, ap, List, [], ◌∷◌, arith,
  length, get_or, pow-add,
}
use native.Mathlib.Nat.{
  pow-zero, div-div-eq-div-mul, add-mul-div_left, div-eq_of_lt, div-one, one-le-pow, pow-suc,
}
use native.Mathlib.Decide.{dec_lt}
use llvm_metal.Modular.Value.{word, radix, value, IsLimbs, value-lt}

-- `limbs[bit / 32] >> (bit % 32) & 1`
pub bit_of : List ℕ → ℕ → ℕ
bit_of limbs bit = get_or limbs (bit / 32) 0 / 2 ^ (bit % 32) % 2

-- R as a power of two.
pub radix-two : (count : ℕ) → radix count ≡ 2 ^ (32 * count)
radix-two zero = refl
radix-two (suc count) =
    let p : 32 + 32 * count ≡ 32 * suc count = omega arith in
    ap (λ (z : ℕ). word * z) (radix-two count)
    ∙ sym (pow-add 2 32 (32 * count))
    ∙ ap (λ (k : ℕ). 2 ^ k) p

power-pos : (b : ℕ) → 0 < 2 ^ b
power-pos b = one-le-pow b 2 (omega arith)

low_bit : (x v b : ℕ) → b < 32 → (x + word * v) / 2 ^ b % 2 ≡ x / 2 ^ b % 2
low_bit x v b h =
    let k = 2 ^ (31 - b) in
    let total : b + suc (31 - b) ≡ 32 = omega arith in
    let split : 2 ^ b * (k * 2) ≡ word =
      ap (λ (z : ℕ). 2 ^ b * z) (sym (pow-suc 2 (31 - b)))
      ∙ sym (pow-add 2 b (suc (31 - b)))
      ∙ ap (λ (e : ℕ). 2 ^ e) total in
    let shape : x + word * v ≡ x + 2 ^ b * (2 * (k * v)) =
      omega (arith, ap (λ (z : ℕ). z * v) split) in
    let quotient =
      ap (λ (z : ℕ). z / 2 ^ b) shape ∙ add-mul-div_left x (2 * (k * v)) (power-pos b) in
    rw quotient (omega arith)

high_bit : (x v c : ℕ) → x < word → (x + word * v) / 2 ^ (32 + c) ≡ v / 2 ^ c
high_bit x v c h =
    let first : (x + word * v) / 2 ^ 32 ≡ v = omega arith in
    ap (λ (z : ℕ). (x + word * v) / z) (pow-add 2 32 c)
    ∙ sym (div-div-eq-div-mul (x + word * v) (2 ^ 32) (2 ^ c))
    ∙ ap (λ (z : ℕ). z / 2 ^ c) first

pub bit_of_lem : (xs : List ℕ) (b : ℕ) → IsLimbs xs → bit_of xs b ≡ value xs / 2 ^ b % 2
unfolding bit_of
bit_of_lem [] b h =
    let none : 0 / 2 ^ b ≡ 0 = div-eq_of_lt (power-pos b) in
    let other : 0 / 2 ^ (b % 32) ≡ 0 = div-eq_of_lt (power-pos (b % 32)) in rw (none, other) refl
bit_of_lem (x ∷ xs) b (h, hs) = elim (dec_lt b 32) [
  | yes low ↦
      let index : b / 32 ≡ 0 = omega arith in
      let shift : b % 32 ≡ b = omega arith in rw (index, shift) (sym (low_bit x (value xs) b low))
  | no high ↦
      let c = b - 32 in
      let whole : b ≡ 32 + c = omega arith in
      let index : b / 32 ≡ suc (c / 32) = omega arith in
      let shift : b % 32 ≡ c % 32 = omega arith in
      let rest = bit_of_lem xs c hs in
      rw (index, shift)
        (rest
          ∙ ap (λ (z : ℕ). z % 2)
              (sym (high_bit x (value xs) c h)
                ∙ ap (λ (k : ℕ). (x + word * value xs) / 2 ^ k) (sym whole)))
]

-- One more bit is read.
pub scan_step :
    (xs : List ℕ) (b : ℕ)
    → IsLimbs xs
    → value xs / 2 ^ b ≡ value xs / 2 ^ suc b + value xs / 2 ^ suc b + bit_of xs b
scan_step xs b h =
    let half : value xs / 2 ^ suc b ≡ value xs / 2 ^ b / 2 =
      ap (λ (z : ℕ). value xs / z) (pow-suc 2 b) ∙ sym (div-div-eq-div-mul (value xs) (2 ^ b) 2) in
    omega (arith, half, bit_of_lem xs b h)

-- Before the first bit and after the last.
pub scan_start : (xs : List ℕ) → IsLimbs xs → value xs / 2 ^ (32 * length xs) ≡ 0
scan_start xs h = div-eq_of_lt (rw (radix-two (length xs)) at (value-lt xs h))

pub scan_end : (x : ℕ) → x / 2 ^ 0 ≡ x
scan_end x = rw (pow-zero 2) (div-one x)

pub bit_of-lt : (xs : List ℕ) (b : ℕ) → bit_of xs b < 2
unfolding bit_of
bit_of-lt xs b = omega arith
