-- ===== src/Modular/Congruence.antt =====
-- Congruence of numbers, for what examples/rsa/kernel/src and examples/p256/kernel/src compute.
use llvm_metal.Base.{ℕ, ◌+◌, ◌*◌, ◌/◌, ◌%◌, ◌<◌, ◌≡◌, sym, ◌∙◌, ap, arith}
use native.Mathlib.Nat.{mod-eq_of_lt, add-mul-mod_self_right, div-add-mod}

-- x and y are equal up to multiples of n.
pub record IsCongruent (n x y : ℕ) : Type 0 where
  pub left : ℕ
  pub right : ℕ
  pub same : x + left * n ≡ y + right * n

pub IsCongruent-of_eq : {n x y : ℕ} → x ≡ y → IsCongruent n x y
IsCongruent-of_eq e = record { left = 0; right = 0; same = omega (arith, e) }

pub IsCongruent-of_mod : (n x y : ℕ) → x % n ≡ y % n → IsCongruent n x y
IsCongruent-of_mod n x y e = record {
  left = y / n;
  right = x / n;
  same = omega (arith, div-add-mod x n, div-add-mod y n, e);
}

pub IsCongruent-sym : {n x y : ℕ} → IsCongruent n x y → IsCongruent n y x
IsCongruent-sym c = record { left = c.right; right = c.left; same = sym c.same }

pub IsCongruent-trans : {n x y z : ℕ} → IsCongruent n x y → IsCongruent n y z → IsCongruent n x z
IsCongruent-trans c d = record {
  left = c.left + d.left;
  right = c.right + d.right;
  same = omega (arith, c.same, d.same);
}

pub IsCongruent-add :
    {n x y x' y' : ℕ} → IsCongruent n x y → IsCongruent n x' y' → IsCongruent n (x + x') (y + y')
IsCongruent-add c d = record {
  left = c.left + d.left;
  right = c.right + d.right;
  same = omega (arith, c.same, d.same);
}

pub IsCongruent-mul_right : {n x y : ℕ} (k : ℕ) → IsCongruent n x y → IsCongruent n (x * k) (y * k)
IsCongruent-mul_right k c = record {
  left = c.left * k;
  right = c.right * k;
  same = omega (arith, ap (λ (z : ℕ). z * k) c.same);
}

pub IsCongruent-mul_left : {n x y : ℕ} (k : ℕ) → IsCongruent n x y → IsCongruent n (k * x) (k * y)
IsCongruent-mul_left k c = record {
  left = k * c.left;
  right = k * c.right;
  same = omega (arith, ap (λ (z : ℕ). k * z) c.same);
}

pub IsCongruent-mul :
    {n x y x' y' : ℕ} → IsCongruent n x y → IsCongruent n x' y' → IsCongruent n (x * x') (y * y')
IsCongruent-mul c d = IsCongruent-trans (IsCongruent-mul_right _ c) (IsCongruent-mul_left _ d)

-- A factor with an inverse can be taken off both sides.
pub IsCongruent-cancel :
    {n x y : ℕ} (r inverse : ℕ)
    → IsCongruent n (r * inverse) 1
    → IsCongruent n (x * r) (y * r)
    → IsCongruent n x y
IsCongruent-cancel {n} {x} {y} r inverse one c =
    let expand : (z : ℕ) → IsCongruent n (z * r * inverse) z = λ z.
      IsCongruent-trans (IsCongruent-of_eq (omega arith))
        (IsCongruent-trans (IsCongruent-mul_left z one) (IsCongruent-of_eq (omega arith))) in
    IsCongruent-trans (IsCongruent-sym (expand x))
      (IsCongruent-trans (IsCongruent-mul_right inverse c) (expand y))

-- Below the modulus, the number is the remainder.
pub IsCongruent-below : {n x y : ℕ} → x < n → IsCongruent n x y → x ≡ y % n
IsCongruent-below {n} {x} {y} h c =
    sym (mod-eq_of_lt h)
    ∙ sym (add-mul-mod_self_right x c.left n)
    ∙ ap (λ (z : ℕ). z % n) c.same
    ∙ add-mul-mod_self_right y c.right n

pub IsCongruent-mod : {n x y : ℕ} → IsCongruent n x y → x % n ≡ y % n
IsCongruent-mod {n} {x} {y} c =
    sym (add-mul-mod_self_right x c.left n)
    ∙ ap (λ (z : ℕ). z % n) c.same
    ∙ add-mul-mod_self_right y c.right n
