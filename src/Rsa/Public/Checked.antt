-- ===== src/Rsa/Public/Checked.antt =====
-- Signing with examples/rsa/kernel/src/lib.rs and checking with examples/rsa/src/key.rs, together.
use llvm_metal.Base.{
  ℕ, zero, suc, ◌+◌, ◌-◌, ◌*◌, ◌/◌, ◌%◌, ◌^◌, ◌<◌, ◌≡◌, sym, ◌∙◌, ap, true, some, List, arith,
  length, get_or, pow-add, pow_one, pow-mul,
}
use native.Mathlib.Nat.{pow-zero, pow-suc, mod-eq_of_lt}
use llvm_metal.Modular.Value.{value, IsLimbs}
use llvm_metal.Modular.Congruence.{
  IsCongruent, IsCongruent-mod, IsCongruent-of_mod, IsCongruent-of_eq, IsCongruent-trans,
  IsCongruent-mul, IsCongruent-mul_right, IsCongruent-cancel,
}
use llvm_metal.Rsa.{SignKey, fl, sign_one}
use llvm_metal.Rsa.Signature.{sign_one_lem}
use llvm_metal.Rsa.Key.{half, sign_key}
use llvm_metal.Rsa.Key.Signs.{IsHalfText, sign_key_lem}
use llvm_metal.Rsa.Public.{public_key, verifies}
use llvm_metal.Rsa.Public.Power.{verifies_iff}

IsCongruent-pow : {n x y : ℕ} (k : ℕ) → IsCongruent n x y → IsCongruent n (x ^ k) (y ^ k)
IsCongruent-pow {n} {x} {y} zero c = IsCongruent-of_eq (pow-zero x ∙ sym (pow-zero y))
IsCongruent-pow {n} {x} {y} (suc k) c = IsCongruent-trans (IsCongruent-of_eq (pow-suc x k)) (
    IsCongruent-trans (IsCongruent-mul (IsCongruent-pow k c) c)
      (IsCongruent-of_eq (sym (pow-suc y k))))

-- Fermat's little theorem, used so many times.
repeated :
    (p x rounds : ℕ)
    → 0 < p
    → IsCongruent p (x ^ p) x
    → IsCongruent p (x ^ (1 + rounds * (p - 1))) x
repeated p x zero pos fermat =
    let e : 1 + 0 * (p - 1) ≡ 1 = omega arith in
    IsCongruent-of_eq (ap (λ (k : ℕ). x ^ k) e ∙ pow_one x)
repeated p x (suc rounds) pos fermat =
    let e : 1 + suc rounds * (p - 1) ≡ (1 + rounds * (p - 1)) + (p - 1) = omega arith in
    let whole : 1 + (p - 1) ≡ p = omega arith in
    let last : x * x ^ (p - 1) ≡ x ^ p =
      ap (λ (z : ℕ). z * x ^ (p - 1)) (sym (pow_one x))
      ∙ sym (pow-add x 1 (p - 1))
      ∙ ap (λ (k : ℕ). x ^ k) whole in
    IsCongruent-trans
      (IsCongruent-of_eq (ap (λ (k : ℕ). x ^ k) e ∙ pow-add x (1 + rounds * (p - 1)) (p - 1)))
      (IsCongruent-trans (IsCongruent-mul_right (x ^ (p - 1)) (repeated p x rounds pos fermat))
        (IsCongruent-trans (IsCongruent-of_eq last) fermat))

-- A number that is m ^ d modulo p gives m back, where d undoes e.
undone :
    (p s m d e rounds : ℕ)
    → 0 < p
    → d * e ≡ 1 + rounds * (p - 1)
    → IsCongruent p (m ^ p) m
    → s % p ≡ m ^ d % p
    → IsCongruent p (s ^ e) m
undone p s m d e rounds pos keys fermat same =
    IsCongruent-trans (IsCongruent-pow e (IsCongruent-of_mod p s (m ^ d) same)) (
      IsCongruent-trans (IsCongruent-of_eq (sym (pow-mul m d e) ∙ ap (λ (k : ℕ). m ^ k) keys))
        (repeated p m rounds pos fermat))

-- The Chinese remainder theorem, for q with an inverse modulo p.
both :
    (p q y x m : ℕ)
    → IsCongruent p (y * q) 1
    → IsCongruent p x m
    → IsCongruent q x m
    → IsCongruent (p * q) x m
both p q y x m inverts first second =
    let a = second.left in
    let b = second.right in
    let scaled : IsCongruent p (a * q) (b * q) = record {
      left = first.right;
      right = first.left;
      same = omega (arith, first.same, second.same);
    } in
    let unit : IsCongruent p (q * y) 1 =
      IsCongruent-trans (IsCongruent-of_eq (omega arith)) inverts in
    let equal = IsCongruent-cancel q y unit scaled in
    record {
      left = equal.right;
      right = equal.left;
      same = omega (arith, second.same, ap (λ (z : ℕ). z * q) equal.same);
    }

-- What openssl promises of a key: the texts of the halves, the larger prime first, the public modulus, that
-- either exponent undoes 65537, and Fermat's little theorem, which says that p does not divide q.
pub record IsKeyText (p dp q dq n : List ℕ) : Type 0 where
  pub first : IsHalfText p dp
  pub second : IsHalfText q dq
  pub larger : value q < value p
  pub low : 1 < get_or p 0 0
  pub modulus : IsLimbs n
  pub size : length n ≡ fl
  pub product : value n ≡ value p * value q
  pub rounds_p : ℕ
  pub rounds_q : ℕ
  pub undoes_p : value dp * 65537 ≡ 1 + rounds_p * (value p - 1)
  pub undoes_q : value dq * 65537 ≡ 1 + rounds_q * (value q - 1)
  pub fermat : IsCongruent (value p) (value q ^ (value p - 2) * value q) 1

odd_product : (a b : ℕ) → 1 < a → 1 < b → a % 2 ≡ 1 → b % 2 ≡ 1 → (1 < a * b) × (a * b % 2 ≡ 1)
odd_product a b ha hb oa ob =
    let x = a / 2 in
    let y = b / 2 in
    let ea : a ≡ 2 * x + 1 = omega arith in
    let eb : b ≡ 2 * y + 1 = omega arith in
    let whole : a * b ≡ 2 * (2 * (x * y) + x + y) + 1 =
      omega (arith, eb, ap (λ (z : ℕ). z * b) ea, ap (λ (z : ℕ). x * z) eb) in
    (omega (arith, whole), omega (arith, whole))

-- A message of 64 limbs below n that Fermat's little theorem holds of, signed with the key that `sign_key`
-- makes, is accepted by the public key.
pub verifies-sign_one :
    (p dp q dq n message : List ℕ)
    → IsKeyText p dp q dq n
    → IsLimbs message
    → length message ≡ fl
    → value message < value n
    → IsCongruent (value p) (value message ^ value p) (value message)
    → IsCongruent (value q) (value message ^ value q) (value message)
    → (key : SignKey) × (sign_key (half p dp) (half q dq) ≡ some key)
      × (verifies (public_key n) (sign_one message key) message ≡ true)
unfolding half
verifies-sign_one p dp q dq n message good limbs size below fp fq =
    let hp = good.first in
    let hq = good.second in
    let (key, made, is_p, is_q, keeps) =
      sign_key_lem p dp q dq hp hq good.larger good.low good.fermat in
    let signed = sign_one_lem message key _ _ _ keeps size limbs in
    let m = value message in
    let s = value (sign_one message key) in
    let side_p : s % value p ≡ m ^ value dp % value p = rw is_p at signed.first in
    let side_q : s % value q ≡ m ^ value dq % value q = rw is_q at signed.second in
    let whole : IsCongruent (value p * value q) (s ^ 65537) m =
      both (value p) (value q) (value q ^ (value p - 2)) (s ^ 65537) m good.fermat
        (undone (value p) s m (value dp) 65537 good.rounds_p (omega (arith, hp.big)) good.undoes_p
          fp side_p)
        (undone (value q) s m (value dq) 65537 good.rounds_q (omega (arith, hq.big)) good.undoes_q
          fq side_q) in
    let (big, odd) = odd_product (value p) (value q) hp.big hq.big hp.odd hq.odd in
    let check =
      verifies_iff n (sign_one message key) message good.modulus signed.limbs limbs good.size
        signed.size size (rw (sym good.product) at big) (rw (sym good.product) at odd) in
    (key, made, check.1 (IsCongruent-mod (rw (sym good.product) at whole) ∙ mod-eq_of_lt below))
