-- ===== src/Modular/Add.antt =====
-- `modadd` and `modsub` of examples/rsa/kernel/src/modular.rs on the numbers they stand for.
use llvm_metal.Base.{
  ℕ, zero, suc, ◌+◌, ◌-◌, ◌*◌, ◌/◌, ◌%◌, ◌^◌, ◌<◌, ◌≤◌, ◌≡◌, ◌⊎◌, inl, inr, refl, sym, ◌∙◌, ap,
  List, [], ◌∷◌, arith, length, bit_and-ones, bit_and-zero,
}
use llvm_metal.Modular.{Carried, sub_limbs, add_limbs, add_masked, modadd, modsub}
use llvm_metal.Modular.Reduce.{IsDifference, sub_limbs_lem, IsReduced, reduce_lem}
use llvm_metal.Modular.Value.{radix, value, IsLimbs, value-lt}

record IsSum (c : ℕ) (xs ys : List ℕ) (s : Carried) : Type 0 where
  size : length s.limbs ≡ length xs
  limbs : IsLimbs s.limbs
  bit : s.carry < 2
  total : value s.limbs + radix (length xs) * s.carry ≡ value xs + value ys + c

add_limbs_lem :
    (c : ℕ) (xs ys : List ℕ)
    → IsLimbs xs
    → IsLimbs ys
    → length xs ≡ length ys
    → c < 2
    → IsSum c xs ys (add_limbs c xs ys)
unfolding add_limbs
add_limbs_lem c [] [] h k e b = record { size = refl; limbs = tt; bit = b; total = omega arith }
add_limbs_lem c [] (y ∷ ys) h k e b = absurd (omega arith)
add_limbs_lem c (x ∷ xs) [] h k e b = absurd (omega arith)
add_limbs_lem c (x ∷ xs) (y ∷ ys) (h, hs) (k, ks) e b =
    let r = add_limbs_lem ((x + y + c) % 2 ^ 64 / 2 ^ 32) xs ys hs ks (omega arith) (omega arith) in
    record {
      size = ap suc r.size;
      limbs = (omega arith, r.limbs);
      bit = r.bit;
      total = omega (arith, r.total);
    }

-- With a mask of all ones the masked loop is the adding loop; with none it adds nothing.
add_masked-ones :
    (c : ℕ) (xs ys : List ℕ) → IsLimbs ys → add_masked (2 ^ 32 - 1) c xs ys ≡ add_limbs c xs ys
unfolding add_masked add_limbs
add_masked-ones c [] ys h = refl
add_masked-ones c (x ∷ xs) [] h = refl
add_masked-ones c (x ∷ xs) (y ∷ ys) (h, hs) =
    rw (bit_and-ones 32 y h, add_masked-ones ((x + y + c) % 2 ^ 64 / 2 ^ 32) xs ys hs) refl

add_masked-zero :
    (xs ys : List ℕ)
    → IsLimbs xs
    → length xs ≡ length ys
    → add_masked 0 0 xs ys ≡ record { limbs = xs; carry = 0 }
unfolding add_masked
add_masked-zero [] ys h e = refl
add_masked-zero (x ∷ xs) [] h e = absurd (omega arith)
add_masked-zero (x ∷ xs) (y ∷ ys) (h, hs) e =
    let sum : (x + 0 + 0) % 2 ^ 64 ≡ x = omega arith in
    let low : x % 2 ^ 32 ≡ x = omega arith in
    let high : x / 2 ^ 32 ≡ 0 = omega arith in
    rw (bit_and-zero y, sum, low, high, add_masked-zero xs ys hs (omega arith)) refl

-- For a and b below n, limbs of the same count, `modadd` returns limbs of a + b or of a + b - n, whichever
-- is below n.
pub modadd_lem :
    (a b n : List ℕ)
    → IsLimbs a
    → IsLimbs b
    → IsLimbs n
    → length a ≡ length n
    → length b ≡ length n
    → value a < value n
    → value b < value n
    → IsReduced (value a + value b) n (modadd a b n)
unfolding modadd
modadd_lem a b n ha hb hn ea eb la lb =
    let s = add_limbs_lem 0 a b ha hb (omega arith) (omega arith) in
    let sum = add_limbs 0 a b in
    let total : value sum.limbs + radix (length sum.limbs) * sum.carry ≡ value a + value b =
      rw s.size (omega (arith, s.total)) in
    rw total at
      (reduce_lem sum.limbs sum.carry n s.limbs hn (s.size ∙ ea) s.bit (omega (arith, total)))

-- What `modsub` promises: a - b, or a + n - b where that would be negative.
pub record IsSubtracted (a b n r : List ℕ) : Type 0 where
  pub size : length r ≡ length n
  pub limbs : IsLimbs r
  pub below : value r < value n
  pub total :
      (value b ≤ value a) × (value r + value b ≡ value a)
      ⊎ (value a < value b) × (value r + value b ≡ value a + value n)

-- The sum of a wrapped difference and n carries exactly once.
wrapped_sum :
    (r d a b n power carry : ℕ)
    → r < power
    → d < power
    → n < power
    → a < n
    → b < n
    → d + b ≡ a + power
    → r + power * carry ≡ d + n
    → (a < b) × (r + b ≡ a + n)
wrapped_sum r d a b n power zero hr hd hn ha hb e f = absurd (omega arith)
wrapped_sum r d a b n power (suc zero) hr hd hn ha hb e f = omega arith
wrapped_sum r d a b n power (suc (suc carry)) hr hd hn ha hb e f = absurd (omega arith)

-- For a and b below n, limbs of the same count, `modsub` returns the limbs of a - b, or of a + n - b where
-- that would be negative.
pub modsub_lem :
    (a b n : List ℕ)
    → IsLimbs a
    → IsLimbs b
    → IsLimbs n
    → length a ≡ length n
    → length b ≡ length n
    → value a < value n
    → value b < value n
    → IsSubtracted a b n (modsub a b n)
unfolding modsub
modsub_lem a b n ha hb hn ea eb la lb = by_borrow d.carry refl
  where
    d : Carried
    d = sub_limbs 0 a b

    r : IsDifference 0 a b d
    r = sub_limbs_lem 0 a b ha hb (ea ∙ sym eb) (omega arith)

    low : value d.limbs < radix (length a)
    low = rw (ap radix r.size) at (value-lt d.limbs r.limbs)

    by_borrow : (y : ℕ) → d.carry ≡ y → IsSubtracted a b n (modsub a b n)
    by_borrow zero q =
        let none_b = ap (λ (x : ℕ). radix (length a) * x) q in
        let same : modsub a b n ≡ d.limbs =
          rw (modsub, q, add_masked-zero d.limbs n r.limbs (r.size ∙ ea)) refl in
        rw same (record {
          size = r.size ∙ ea;
          limbs = r.limbs;
          below = omega (arith, r.total, none_b);
          total = inl (omega (arith, r.total, none_b));
        })
    by_borrow (suc zero) q =
        let s = add_limbs_lem 0 d.limbs n r.limbs hn (r.size ∙ ea) (omega arith) in
        let sum = add_limbs 0 d.limbs n in
        let same : modsub a b n ≡ sum.limbs = rw (modsub, q, add_masked-ones 0 d.limbs n hn) refl in
        let one_b = ap (λ (x : ℕ). radix (length a) * x) q in
        let power = ap radix r.size in
        let high = value-lt sum.limbs s.limbs in
        let (less, total) =
          wrapped_sum (value sum.limbs) (value d.limbs) (value a) (value b) (value n)
            (radix (length a)) sum.carry (rw (ap radix (s.size ∙ r.size)) at high) low
            (rw (ap radix (sym ea)) at (value-lt n hn)) la lb (omega (arith, r.total, one_b))
            (rw power at (s.total) ∙ omega arith) in
        rw same (record {
          size = s.size ∙ (r.size ∙ ea);
          limbs = s.limbs;
          below = omega arith;
          total = inr (less, total);
        })
    by_borrow (suc (suc y)) q = absurd (omega (arith, r.bit))
