-- ===== src/Modular/Montgomery.antt =====
-- `montmul` of examples/rsa/kernel/src/modular.rs is Montgomery multiplication.
use llvm_metal.Base.{
  ℕ, zero, suc, ◌+◌, ◌*◌, ◌%◌, ◌<◌, ◌≤◌, ◌≡◌, ◌⊎◌, inl, inr, sym, ◌∙◌, ap, List, [], ◌∷◌, arith,
  length, replicate, length-replicate,
}
use native.Mathlib.Nat.{mul-le-mul_right, add-mul-mod_self_right, lt_of_mul-lt-mul_left}
use llvm_metal.Modular.{Accumulator, round, rounds, reduce, montmul}
use llvm_metal.Modular.Value.{word, radix, value, IsLimbs, value-replicate, IsLimbs-replicate}
use llvm_metal.Modular.Reduce.{reduce_lem}
use llvm_metal.Modular.Row.{total_of, IsBounded, round_lem}

pub radix-pos : (count : ℕ) → 0 < radix count
radix-pos zero = omega arith
radix-pos (suc count) = omega (arith, radix-pos count)

record IsProduct (a n bs : List ℕ) (before after : Accumulator) : Type 0 where
  bounded : IsBounded a n after
  m : ℕ
  m_small : m < radix (length bs)
  total : radix (length bs) * total_of after ≡ total_of before + value a * value bs + m * value n

-- The algebra of one more round.
more_rounds :
    (power after middle before a b vbs n m m' : ℕ)
    → power * after ≡ middle + a * vbs + m' * n
    → word * middle ≡ before + a * b + m * n
    → word * power * after ≡ before + a * (b + word * vbs) + (m + word * m') * n
more_rounds power after middle before a b vbs n m m' e f =
    omega (arith, f, ap (λ (z : ℕ). word * z) e)

module _ (a n : List ℕ) (n0inv : ℕ) (ha : IsLimbs a) (hn : IsLimbs n) (ea : length a ≡ length n)
    (pos : 0 < length n) (inverse : (value n % word * n0inv + 1) % word ≡ 0) where
  rounds_lem :
      (bs : List ℕ) (acc : Accumulator)
      → IsLimbs bs
      → IsBounded a n acc
      → IsProduct a n bs acc (rounds a n n0inv bs acc)
  unfolding rounds
  rounds_lem [] acc hb h = record { bounded = h; m = 0; m_small = omega arith; total = omega arith }
  rounds_lem (b ∷ bs) acc (hb, hbs) h =
      let next = round a n n0inv b acc in
      let one = round_lem a n n0inv b acc ha hn ea pos inverse hb h in
      let rest = rounds_lem bs next hbs one.bounded in
      let last = rounds a n n0inv bs next in
      record {
        bounded = rest.bounded;
        m = one.m + word * rest.m;
        m_small = omega (arith, one.m_word, rest.m_small);
        total =
            more_rounds (radix (length bs)) (total_of last) (total_of next) (total_of acc) (value a)
              b (value bs) (value n) one.m rest.m rest.total one.total;
      }

-- What `montmul` promises: limbs below n, and a * b once a factor of R = 2 ^ (32 N) is put back.
pub record IsMontgomery (a b n r : List ℕ) : Type 0 where
  pub size : length r ≡ length n
  pub limbs : IsLimbs r
  pub below : value r < value n
  pub congruent : value r * radix (length n) % value n ≡ value a * value b % value n

positive_of_product : (ab n power : ℕ) → ab < n * power → 0 < n
positive_of_product ab zero power h = absurd (omega arith)
positive_of_product ab (suc n) power h = omega arith

-- Less than twice the modulus, before the last reduction.
less_than_twice :
    (power total ab m n : ℕ)
    → power * total ≡ ab + m * n
    → m < power
    → ab < n * power
    → 0 < n
    → total < 2 * n
less_than_twice power total ab m n e hm h hn =
    let most : m ≤ power = omega arith in
    let p : power * total < power * (2 * n) = omega (arith, mul-le-mul_right n most) in
    lt_of_mul-lt-mul_left power p

-- Taking the modulus away, or putting in a multiple of it, keeps the residue.
same_residue :
    (r total power ab m n : ℕ)
    → (r ≡ total) ⊎ (r + n ≡ total)
    → power * total ≡ ab + m * n
    → r * power % n ≡ ab % n
same_residue r total power ab m n (inl same) e =
    let p : r * power ≡ ab + m * n = omega (arith, e, ap (λ (z : ℕ). power * z) same) in
    rw p (add-mul-mod_self_right ab m n)
same_residue r total power ab m n (inr less) e =
    let p : r * power + power * n ≡ ab + m * n = omega (arith, e, ap (λ (z : ℕ). power * z) less) in
    sym (add-mul-mod_self_right (r * power) power n)
    ∙ ap (λ (z : ℕ). z % n) p
    ∙ add-mul-mod_self_right ab m n

-- For limbs a, b and n of one count, n0inv with n * n0inv = -1 modulo 2 ^ 32, and a * b below n * R for
-- R = 2 ^ (32 N), `montmul` returns limbs of a number below n that is a * b / R modulo n: times R it is
-- congruent to a * b.
pub montmul_lem :
    (a b n : List ℕ) (n0inv : ℕ)
    → IsLimbs a
    → IsLimbs b
    → IsLimbs n
    → length a ≡ length n
    → length b ≡ length n
    → 0 < length n
    → (value n % word * n0inv + 1) % word ≡ 0
    → value a * value b < value n * radix (length n)
    → IsMontgomery a b n (montmul a b n n0inv)
unfolding montmul
montmul_lem a b n n0inv ha hb hn ea eb pos inverse small =
    let positive : 0 < value n =
      positive_of_product (value a * value b) (value n) (radix (length n)) small in
    let first : Accumulator = record { t = replicate (length n) 0; top = 0 } in
    let empty : total_of first ≡ 0 = omega (arith, value-replicate (length n)) in
    let start : IsBounded a n first = record {
      size = length-replicate (length n) 0;
      limbs = IsLimbs-replicate (length n);
      top_bit = omega arith;
      below = omega (arith, empty);
    } in
    let p = rounds_lem a n n0inv ha hn ea pos inverse b first hb start in
    let last = rounds a n n0inv b first in
    let power = ap radix eb in
    let total : radix (length n) * total_of last ≡ value a * value b + p.m * value n =
      omega (arith, empty, rw power at p.total) in
    let m_small : p.m < radix (length n) = rw power at p.m_small in
    let twice =
      less_than_twice (radix (length n)) (total_of last) (value a * value b) p.m (value n) total
        m_small small positive in
    let r =
      reduce_lem last.t last.top n p.bounded.limbs hn p.bounded.size p.bounded.top_bit twice in
    record {
      size = r.size;
      limbs = r.limbs;
      below = r.below;
      congruent =
          same_residue (value (reduce last.t last.top n)) (total_of last) (radix (length n))
            (value a * value b) p.m (value n) r.once total;
    }
