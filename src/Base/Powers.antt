-- ===== src/Base/Powers.antt =====
-- Powers of the native numbers.
use Prim.Native.Nat.{ℕ, zero, suc, ◌+◌, ◌*◌, ◌^◌}
use mathlib.Core.Path.{◌≡◌, sym, ◌∙◌, ap}
use native.Mathlib.Nat.{pow-zero, pow-suc}
use native.Mathlib.Omega.{arith}

pub pow-add : (x a b : ℕ) → x ^ (a + b) ≡ x ^ a * x ^ b
pow-add x a zero =
    let p : a + 0 ≡ a = omega arith in
    ap (λ (k : ℕ). x ^ k) p ∙ omega (arith, ap (λ (z : ℕ). x ^ a * z) (pow-zero x))
pow-add x a (suc b) =
    let p : a + suc b ≡ suc (a + b) = omega arith in
    ap (λ (k : ℕ). x ^ k) p
    ∙ pow-suc x (a + b)
    ∙ omega (arith, ap (λ (z : ℕ). z * x) (pow-add x a b), ap (λ (z : ℕ). x ^ a * z) (pow-suc x b))

pub pow_one : (x : ℕ) → x ^ 1 ≡ x
pow_one x = pow-suc x 0 ∙ omega (arith, ap (λ (z : ℕ). z * x) (pow-zero x))

pub pow-mul : (x a b : ℕ) → x ^ (a * b) ≡ (x ^ a) ^ b
pow-mul x a zero =
    let p : a * 0 ≡ 0 = omega arith in ap (λ (k : ℕ). x ^ k) p ∙ pow-zero x ∙ sym (pow-zero (x ^ a))
pow-mul x a (suc b) =
    let p : a * suc b ≡ a * b + a = omega arith in
    ap (λ (k : ℕ). x ^ k) p
    ∙ pow-add x (a * b) a
    ∙ ap (λ (z : ℕ). z * x ^ a) (pow-mul x a b)
    ∙ sym (pow-suc (x ^ a) b)
