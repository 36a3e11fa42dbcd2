-- ===== src/Base/Disjoint.antt =====
-- The or of numbers without a common digit is their sum.
use Prim.Native.Nat.{
  ℕ, zero, suc, ◌+◌, ◌*◌, ◌/◌, ◌%◌, ◌^◌, ◌≤◌, ◌<◌, max, bit_or, digits, bit_or-bitwise,
}
use mathlib.Core.Path.{◌≡◌, ap, ◌∙◌}
use native.Mathlib.Omega.{arith}
use native.Mathlib.Nat.{pow-zero, pow-suc}
use llvm_metal.Base.Bits.{or_digits_zero}

-- Whatever the fuel of the recursion on digits is, if it bounds the first number.
abbrev pub IsDisjoint : ℕ → ℕ → Type 0
IsDisjoint a b = (fuel : ℕ) → a ≤ fuel → digits (λ d. d) max fuel a b ≡ a + b

pub bit_or-disjoint : (a b : ℕ) → IsDisjoint a b → bit_or a b ≡ a + b
bit_or-disjoint a b h = bit_or-bitwise a b ∙ h a (omega arith)

max-add : (u v : ℕ) → u + v ≤ 1 → max u v ≡ u + v
max-add u v h = omega arith

-- One more digit at the low end, set in one of the numbers at most.
IsDisjoint-half : (a b : ℕ) → IsDisjoint (a / 2) (b / 2) → a % 2 + b % 2 ≤ 1 → IsDisjoint a b
IsDisjoint-half zero b h low zero le = let e : b ≡ 0 + b = omega arith in e
IsDisjoint-half zero b h low (suc fuel) le = let e : b ≡ 0 + b = omega arith in e
IsDisjoint-half (suc a) b h low zero le = absurd (omega arith)
IsDisjoint-half (suc a) b h low (suc fuel) le =
    omega (arith, h fuel (omega arith), max-add (suc a % 2) (b % 2) low)

IsDisjoint-zero : (a : ℕ) → IsDisjoint a 0
IsDisjoint-zero a fuel le = omega (arith, or_digits_zero fuel a le)

-- A number of k digits below a multiple of 2 ^ k.
IsDisjoint-below : (k hi c : ℕ) → c < 2 ^ k → IsDisjoint (hi * 2 ^ k) c
IsDisjoint-below zero hi c h =
    let none : c ≡ 0 = omega (arith, pow-zero 2) in rw none (IsDisjoint-zero (hi * 2 ^ 0))
IsDisjoint-below (suc k) hi c h =
    let p = pow-suc 2 k in
    let twice : hi * 2 ^ suc k ≡ 2 * (hi * 2 ^ k) = omega (arith, ap (λ (z : ℕ). hi * z) p) in
    let half : hi * 2 ^ suc k / 2 ≡ hi * 2 ^ k = omega arith in
    IsDisjoint-half (hi * 2 ^ suc k) c (rw half (IsDisjoint-below k hi (c / 2) (omega arith)))
      (omega arith)

-- Both moved up m digits, with m digits of one of them below.
IsDisjoint-above :
    (m a b lo : ℕ) → lo < 2 ^ m → IsDisjoint a b → IsDisjoint (a * 2 ^ m + lo) (b * 2 ^ m)
IsDisjoint-above zero a b lo h both =
    let p = pow-zero 2 in
    let left : a * 2 ^ 0 + lo ≡ a = omega (arith, ap (λ (z : ℕ). a * z) p) in
    let right : b * 2 ^ 0 ≡ b = omega (arith, ap (λ (z : ℕ). b * z) p) in rw (left, right) both
IsDisjoint-above (suc m) a b lo h both =
    let p = pow-suc 2 m in
    let left : a * 2 ^ suc m ≡ 2 * (a * 2 ^ m) = omega (arith, ap (λ (z : ℕ). a * z) p) in
    let right : b * 2 ^ suc m ≡ 2 * (b * 2 ^ m) = omega (arith, ap (λ (z : ℕ). b * z) p) in
    let half_left : (a * 2 ^ suc m + lo) / 2 ≡ a * 2 ^ m + lo / 2 = omega arith in
    let half_right : b * 2 ^ suc m / 2 ≡ b * 2 ^ m = omega arith in
    IsDisjoint-half (a * 2 ^ suc m + lo) (b * 2 ^ suc m)
      (rw (half_left, half_right) (IsDisjoint-above m a b (lo / 2) (omega arith) both))
      (omega arith)

-- A field of k bits at bit m of a number that has zeros there.
pub bit_or-field :
    (k m hi lo c : ℕ)
    → lo < 2 ^ m
    → c < 2 ^ k
    → bit_or (hi * 2 ^ k * 2 ^ m + lo) (c * 2 ^ m) ≡ hi * 2 ^ k * 2 ^ m + lo + c * 2 ^ m
bit_or-field k m hi lo c low small =
    bit_or-disjoint _ _ (IsDisjoint-above m (hi * 2 ^ k) c lo low (IsDisjoint-below k hi c small))
