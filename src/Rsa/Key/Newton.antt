-- ===== src/Rsa/Key/Newton.antt =====
-- `n0inv` of examples/rsa/src/key.rs: each round of Newton's iteration doubles the correct bits.
use llvm_metal.Base.{ℕ, zero, suc, ◌+◌, ◌-◌, ◌*◌, ◌/◌, ◌%◌, ◌^◌, ◌<◌, ◌≡◌, refl, sym, ap, arith}
use native.Mathlib.Nat.{div-add-mod, mod-lt}
use llvm_metal.Modular.{wrapping_neg}
use llvm_metal.Modular.Value.{word}
use llvm_metal.Modular.Congruence.{
  IsCongruent, IsCongruent-of_eq, IsCongruent-trans, IsCongruent-sym, IsCongruent-mul,
  IsCongruent-mul_left, IsCongruent-below,
}
use llvm_metal.Rsa.Key.{newton, newton_rounds, n0inv}

-- The algebra of a round: y = 1 + k t and y + u = w + 2 for w a multiple of k * k.
round_algebra :
    (k t c y u : ℕ) → y ≡ 1 + k * t → y + u ≡ k * k * c + 2 → IsCongruent (k * k) (y * u) 1
round_algebra k t c y u e f =
    let rest : u + k * t ≡ k * k * c + 1 = omega (arith, e, f) in
    record {
      left = t * t;
      right = c * (1 + k * t);
      same = omega (arith, rest, ap (λ (z : ℕ). z * u) e, ap (λ (z : ℕ). k * t * z) rest);
    }

-- A number that is 1 modulo k is 1 + k t.
one_more : (k y : ℕ) → y % k ≡ 1 → y ≡ 1 + k * (y / k)
one_more k y e = omega (arith, div-add-mod y k, e)

-- A factor of the modulus is a modulus.
IsCongruent-factor : {n x y : ℕ} (k c : ℕ) → n ≡ k * c → IsCongruent n x y → IsCongruent k x y
IsCongruent-factor k c e h = record {
  left = c * h.left;
  right = c * h.right;
  same = omega (arith, h.same, ap (λ (z : ℕ). h.left * z) e, ap (λ (z : ℕ). h.right * z) e);
}

-- Wrapping does not change a number modulo 2 ^ 32.
wrapped : (x : ℕ) → IsCongruent word (x % word) x
wrapped x = record { left = x / word; right = 0; same = omega arith }

-- One round: a number that inverts m modulo k becomes one that inverts it modulo k * k.
newton_lem :
    (m x k c : ℕ)
    → word ≡ k * k * c
    → 1 < k
    → IsCongruent k (m * x) 1
    → IsCongruent (k * k) (m * newton m x) 1
unfolding newton
newton_lem m x k c e big h =
    let y = m * x % word in
    let u = 2 + word - y in
    let one : IsCongruent k y 1 =
      IsCongruent-trans (IsCongruent-factor k (k * c) (omega (arith, e)) (wrapped (m * x))) h in
    let first = one_more k y (sym (IsCongruent-below big (IsCongruent-sym one))) in
    let below : y + u ≡ k * k * c + 2 = omega (arith, e, mod-lt (m * x) {m = word} (omega arith)) in
    let product : IsCongruent word (m * newton m x) (y * u) =
      IsCongruent-trans (IsCongruent-mul_left m (wrapped (x * (u % word)))) (
        IsCongruent-trans (IsCongruent-of_eq (omega arith))
          (IsCongruent-mul (IsCongruent-sym (wrapped (m * x))) (wrapped u))) in
    IsCongruent-trans (IsCongruent-factor (k * k) c e product)
      (round_algebra k (y / k) c y u first below)

odd_start : (m : ℕ) → m % 2 ≡ 1 → IsCongruent 2 (m * 1) 1
odd_start m odd = record { left = 0; right = m / 2; same = omega arith }

newton-lt : (m x : ℕ) → newton m x < word
unfolding newton
newton-lt m x = omega arith

-- The negation of an inverse.
negated : (m x : ℕ) → x < word → IsCongruent word (m * x) 1 → (m * wrapping_neg x + 1) % word ≡ 0
negated m zero small h = absurd (omega (arith, h.same))
negated m (suc x) small h =
    let v = word - suc x in
    let e : v + suc x ≡ word = omega arith in
    let wrap : wrapping_neg (suc x) ≡ v = omega arith in
    let f : m * v + m * suc x ≡ m * word = omega (arith, ap (λ (z : ℕ). m * z) e) in
    rw wrap (omega (arith, f, h.same))

pub n0inv_lem : (m : ℕ) → m % 2 ≡ 1 → m < word → (m * n0inv m + 1) % word ≡ 0
unfolding n0inv newton_rounds
n0inv_lem m odd small =
    let r1 = newton_lem m 1 2 (2 ^ 30) refl (omega arith) (odd_start m odd) in
    let x1 = newton m 1 in
    let r2 = newton_lem m x1 4 (2 ^ 28) refl (omega arith) r1 in
    let x2 = newton m x1 in
    let r3 = newton_lem m x2 16 (2 ^ 24) refl (omega arith) r2 in
    let x3 = newton m x2 in
    let r4 = newton_lem m x3 256 (2 ^ 16) refl (omega arith) r3 in
    let x4 = newton m x3 in
    let r5 = newton_lem m x4 (2 ^ 16) 1 refl (omega arith) r4 in
    let x5 = newton m x4 in let small5 : x5 < word = newton-lt m x4 in negated m x5 small5 r5
