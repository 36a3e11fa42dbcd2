-- ===== src/Modular/Row.antt =====
-- One round of `montmul` of examples/rsa/kernel/src/modular.rs: no sum overflows, and the accumulator
-- takes a * bi and a multiple of n, divided by a word.
use llvm_metal.Base.{
  ℕ, zero, suc, ◌+◌, ◌-◌, ◌*◌, ◌/◌, ◌%◌, ◌^◌, ◌<◌, ◌≤◌, ◌≡◌, refl, sym, ◌∙◌, ap, List, [], ◌∷◌,
  ◌++◌, arith, length, length-append,
}
use native.Mathlib.Nat.{mul-le-mul, mul-le-mul_left, mul-le-mul_right}
use llvm_metal.Modular.{Carried, Accumulator, mul_add_limbs, shift_row, round}
use llvm_metal.Modular.Value.{word, radix, value, IsLimbs, value-lt, value-append, IsLimbs-append}

-- `t + a * k + c` of words fits 64 bits, and the carry is a word.
word_product : (t a k c : ℕ) → t < word → a < word → k < word → c < word → t + a * k + c < 2 ^ 64
word_product t a k c ht ha hk hc =
    let a_max : a ≤ word - 1 = omega arith in
    let k_max : k ≤ word - 1 = omega arith in
    let p : a * k ≤ (word - 1) * (word - 1) = mul-le-mul a_max k_max in omega arith

pub record IsRow (k c : ℕ) (ts xs : List ℕ) (row : Carried) : Type 0 where
  pub size : length row.limbs ≡ length ts
  pub limbs : IsLimbs row.limbs
  pub carry_word : row.carry < word
  pub total : value row.limbs + radix (length ts) * row.carry ≡ value ts + value xs * k + c

pub mul_add_limbs_lem :
    (k c : ℕ) (ts xs : List ℕ)
    → k < word
    → c < word
    → IsLimbs ts
    → IsLimbs xs
    → length ts ≡ length xs
    → IsRow k c ts xs (mul_add_limbs k c ts xs)
unfolding mul_add_limbs
mul_add_limbs_lem k c [] [] hk hc h g e = record {
  size = refl;
  limbs = tt;
  carry_word = hc;
  total = omega arith;
}
mul_add_limbs_lem k c [] (x ∷ xs) hk hc h g e = absurd (omega arith)
mul_add_limbs_lem k c (t ∷ ts) [] hk hc h g e = absurd (omega arith)
mul_add_limbs_lem k c (t ∷ ts) (x ∷ xs) hk hc (h, hs) (g, gs) e =
    let s = t + x * k + c in
    let small = word_product t x k c h g hk hc in
    let exact : s % 2 ^ 64 ≡ s = omega arith in
    let r = mul_add_limbs_lem k (s % 2 ^ 64 / 2 ^ 32) ts xs hk (omega arith) hs gs (omega arith) in
    record {
      size = ap suc r.size;
      limbs = (omega arith, r.limbs);
      carry_word = r.carry_word;
      total = omega (arith, r.total);
    }

-- The multiple of n that a round adds makes the low limb cancel.
low_limb_cancels :
    (t0 n0 n0inv : ℕ) → (n0 * n0inv + 1) % word ≡ 0 → (t0 + t0 * n0inv % word * n0) % word ≡ 0
low_limb_cancels t0 n0 n0inv inverse =
    let q = (n0 * n0inv + 1) / word in
    let p = t0 * n0inv / word in
    let m = t0 * n0inv % word in
    let e : n0 * n0inv + 1 ≡ word * q = omega arith in
    let f : t0 * n0inv ≡ word * p + m = omega arith in
    let whole : t0 + m * n0 + word * (p * n0) ≡ word * (t0 * q) =
      omega (arith, ap (λ (z : ℕ). t0 * z) e, ap (λ (z : ℕ). z * n0) f) in
    omega arith

-- The number that the accumulator stands for.
abbrev pub total_of : Accumulator → ℕ
total_of acc = value acc.t + radix (length acc.t) * acc.top

pub record IsShifted (n : List ℕ) (before : ℕ) (acc : Accumulator) : Type 0 where
  pub size : length acc.t ≡ length n
  pub limbs : IsLimbs acc.t
  pub m : ℕ
  pub m_word : m < word
  pub total : word * total_of acc ≡ before + m * value n

-- The algebra of the second half of a round.
shift_total :
    (v power c2 vts vns m c0 t0 n0 x y top over : ℕ)
    → v + power * c2 ≡ vts + vns * m + c0
    → word * c0 ≡ t0 + m * n0
    → x + word * y ≡ top + c2
    → word * (v + power * x + word * power * (over + y))
      ≡ t0 + word * vts + word * power * (top + word * over) + m * (n0 + word * vns)
shift_total v power c2 vts vns m c0 t0 n0 x y top over e f g =
    omega (arith, e, f, ap (λ (z : ℕ). power * z) g)

shift_row_lem :
    (n0inv : ℕ) (ts : List ℕ) (top over : ℕ) (n : List ℕ)
    → IsLimbs ts
    → IsLimbs n
    → length ts ≡ length n
    → 0 < length n
    → top < word
    → over < 2
    → (value n % word * n0inv + 1) % word ≡ 0
    → IsShifted n
        (value ts + radix (length ts) * (top + word * over))
        (shift_row n0inv ts top over n)
unfolding shift_row
shift_row_lem n0inv [] top over n h k e pos ht ho inverse = absurd (omega arith)
shift_row_lem n0inv (t0 ∷ ts) top over [] h k e pos ht ho inverse = absurd (omega arith)
shift_row_lem n0inv (t0 ∷ ts) top over (n0 ∷ ns) (h, hs) (k, ks) e pos ht ho inverse =
    let m = t0 * n0inv % word in
    let low : (n0 + word * value ns) % word ≡ n0 = omega arith in
    let cancels = low_limb_cancels t0 n0 n0inv (rw low at inverse) in
    let small = word_product t0 n0 m 0 h k (omega arith) (omega arith) in
    let carry = (t0 + m * n0) % 2 ^ 64 / word in
    let exact : word * carry ≡ t0 + m * n0 = omega arith in
    let r = mul_add_limbs_lem m carry ts ns (omega arith) (omega arith) hs ks (omega arith) in
    let row = mul_add_limbs m carry ts ns in
    let s = (top + row.carry) % 2 ^ 64 in
    let split : s % word + word * (s / word) ≡ top + row.carry = omega (arith, r.carry_word) in
    let fits : (over + s / word) % word ≡ over + s / word = omega (arith, r.carry_word) in
    let size : length (row.limbs ++ (s % word) ∷ []) ≡ suc (length ts) =
      omega (arith, length-append row.limbs ((s % word) ∷ []), r.size) in
    let joined : value (row.limbs ++ (s % word) ∷ [])
        ≡ value row.limbs + radix (length ts) * (s % word) =
      rw (value-append row.limbs ((s % word) ∷ []), ap radix r.size) (omega arith) in
    record {
      size = size ∙ e;
      limbs = IsLimbs-append row.limbs ((s % word) ∷ []) r.limbs (omega arith);
      m = m;
      m_word = omega arith;
      total =
          rw (joined, fits, ap radix size)
            (shift_total (value row.limbs) (radix (length ts)) row.carry (value ts) (value ns) m
              carry t0 n0 (s % word) (s / word) top over r.total exact split);
    }

-- The accumulator between two rounds: its number is below a + n, so `top` is one bit.
pub record IsBounded (a n : List ℕ) (acc : Accumulator) : Type 0 where
  pub size : length acc.t ≡ length n
  pub limbs : IsLimbs acc.t
  pub top_bit : acc.top < 2
  pub below : total_of acc < value a + value n

-- One round: the number is multiplied by nothing and divided by a word, exactly.
pub record IsRound (a n : List ℕ) (bi : ℕ) (before after : Accumulator) : Type 0 where
  pub bounded : IsBounded a n after
  pub m : ℕ
  pub m_word : m < word
  pub total : word * total_of after ≡ total_of before + value a * bi + m * value n

-- The bound on the number is kept, and bounds the top.
below_again :
    (total before a n bi m : ℕ)
    → before < a + n
    → bi < word
    → m < word
    → word * total ≡ before + a * bi + m * n
    → total < a + n
below_again total before a n bi m h hb hm e =
    let b_max : bi ≤ word - 1 = omega arith in
    let m_max : m ≤ word - 1 = omega arith in
    omega (arith, mul-le-mul_left a b_max, mul-le-mul_right n m_max)

top_again : (t top power a n : ℕ) → t + power * top < a + n → a < power → n < power → top < 2
top_again t zero power a n h ha hn = omega arith
top_again t (suc zero) power a n h ha hn = omega arith
top_again t (suc (suc top)) power a n h ha hn = absurd (omega arith)

-- A round of `montmul` from a bounded accumulator: no sum overflows, the number that the accumulator
-- stands for takes a * bi and a multiple of n, and is divided by a word exactly.
pub round_lem :
    (a n : List ℕ) (n0inv bi : ℕ) (acc : Accumulator)
    → IsLimbs a
    → IsLimbs n
    → length a ≡ length n
    → 0 < length n
    → (value n % word * n0inv + 1) % word ≡ 0
    → bi < word
    → IsBounded a n acc
    → IsRound a n bi acc (round a n n0inv bi acc)
unfolding round
round_lem a n n0inv bi acc ha hn ea pos inverse hb h =
    let r = mul_add_limbs_lem bi 0 acc.t a hb (omega arith) h.limbs ha (h.size ∙ sym ea) in
    let row = mul_add_limbs bi 0 acc.t a in
    let s = (acc.top + row.carry) % 2 ^ 64 in
    let split : s % word + word * (s / word) ≡ acc.top + row.carry =
      omega (arith, h.top_bit, r.carry_word) in
    let q =
      shift_row_lem n0inv row.limbs (s % word) (s / word) n r.limbs hn (r.size ∙ h.size) pos
        (omega arith) (omega (arith, h.top_bit, r.carry_word)) inverse in
    let after = shift_row n0inv row.limbs (s % word) (s / word) n in
    let power : radix (length row.limbs) ≡ radix (length acc.t) = ap radix r.size in
    let started : value row.limbs + radix (length row.limbs) * (s % word + word * (s / word))
        ≡ total_of acc + value a * bi =
      rw (power, split) (omega (arith, r.total)) in
    let total : word * total_of after ≡ total_of acc + value a * bi + q.m * value n =
      rw started at q.total in
    let below =
      below_again (total_of after) (total_of acc) (value a) (value n) bi q.m h.below hb q.m_word
        total in
    let same = ap radix q.size in
    record {
      bounded = record {
        size = q.size;
        limbs = q.limbs;
        top_bit =
            top_again (value after.t) after.top (radix (length after.t)) (value a) (value n) below
              (rw (same, ← ap radix ea) (value-lt a ha)) (rw same (value-lt n hn));
        below = below;
      };
      m = q.m;
      m_word = q.m_word;
      total = total;
    }
