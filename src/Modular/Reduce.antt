-- ===== src/Modular/Reduce.antt =====
-- `reduce` of examples/rsa/kernel/src/modular.rs on the numbers that limbs stand for.
use llvm_metal.Base.{
  ℕ, zero, suc, ◌+◌, ◌*◌, ◌/◌, ◌%◌, ◌^◌, ◌<◌, ◌≡◌, ◌⊎◌, inl, inr, refl, sym, ◌∙◌, ap, List, [], ◌∷◌,
  arith, length,
}
use llvm_metal.Modular.{Carried, sub_limbs, reduce, borrow_sub}
use llvm_metal.Modular.Select.{select_one, select_zero}
use llvm_metal.Modular.Value.{word, radix, value, IsLimbs, value-lt}

-- A borrowing subtraction of one limb.
pub borrow_sub_lem :
    (t n borrow : ℕ)
    → t < word
    → n < word
    → borrow < 2
    → (borrow_sub t n borrow % word + n + borrow ≡ t + word * (borrow_sub t n borrow / word % 2))
borrow_sub_lem t n borrow h k b = omega arith

pub record IsDifference (borrow : ℕ) (ts ns : List ℕ) (d : Carried) : Type 0 where
  pub size : length d.limbs ≡ length ts
  pub limbs : IsLimbs d.limbs
  pub bit : d.carry < 2
  pub total : value d.limbs + value ns + borrow ≡ value ts + radix (length ts) * d.carry

pub sub_limbs_lem :
    (borrow : ℕ) (ts ns : List ℕ)
    → IsLimbs ts
    → IsLimbs ns
    → length ts ≡ length ns
    → borrow < 2
    → IsDifference borrow ts ns (sub_limbs borrow ts ns)
unfolding sub_limbs
sub_limbs_lem borrow [] [] h k e b = record {
  size = refl;
  limbs = tt;
  bit = b;
  total = omega arith;
}
sub_limbs_lem borrow [] (n ∷ ns) h k e b = absurd (omega arith)
sub_limbs_lem borrow (t ∷ ts) [] h k e b = absurd (omega arith)
sub_limbs_lem borrow (t ∷ ts) (n ∷ ns) (h, hs) (k, ks) e b =
    let s = borrow_sub t n borrow in
    let step = borrow_sub_lem t n borrow h k b in
    let r = sub_limbs_lem (s / 2 ^ 32 % 2) ts ns hs ks (omega arith) (omega arith) in
    record {
      size = ap suc r.size;
      limbs = (omega arith, r.limbs);
      bit = r.bit;
      total = omega (arith, step, r.total);
    }

-- What `reduce` promises of the number `total`, below twice the modulus: one subtraction at most.
pub record IsReduced (total : ℕ) (n r : List ℕ) : Type 0 where
  pub size : length r ≡ length n
  pub limbs : IsLimbs r
  pub below : value r < value n
  pub once : (value r ≡ total) ⊎ (value r + value n ≡ total)

IsReduced-difference :
    (t n : List ℕ) (carry : ℕ) (d : Carried)
    → length t ≡ length n
    → IsDifference 0 t n d
    → value t + radix (length t) * carry < 2 * value n
    → value d.limbs + value n ≡ value t + radix (length t) * carry
    → IsReduced (value t + radix (length t) * carry) n d.limbs
IsReduced-difference t n carry d e r small total = record {
  size = r.size ∙ e;
  limbs = r.limbs;
  below = omega arith;
  once = inr total;
}

-- For a number below twice the modulus, given as limbs and a carry bit, `reduce` returns its limbs, or those of
-- the difference, whichever is below the modulus.
pub reduce_lem :
    (t : List ℕ) (carry : ℕ) (n : List ℕ)
    → IsLimbs t
    → IsLimbs n
    → length t ≡ length n
    → carry < 2
    → value t + radix (length t) * carry < 2 * value n
    → IsReduced (value t + radix (length t) * carry) n (reduce t carry n)
unfolding reduce
reduce_lem t carry n h k e c small = by_bits carry d.carry refl refl
  where
    d : Carried
    d = sub_limbs 0 t n

    r : IsDifference 0 t n d
    r = sub_limbs_lem 0 t n h k e (omega arith)

    high : value d.limbs < radix (length t)
    high = rw (ap radix r.size) at (value-lt d.limbs r.limbs)

    low : value n < radix (length t)
    low = rw (sym (ap radix e)) at (value-lt n k)

    by_bits :
        (x y : ℕ)
        → carry ≡ x
        → d.carry ≡ y
        → IsReduced (value t + radix (length t) * carry) n (reduce t carry n)
    by_bits zero zero p q =
        let same : reduce t carry n ≡ d.limbs =
          rw (reduce, p, q) (select_one d.limbs t r.limbs r.size) in
        let total : value d.limbs + value n ≡ value t + radix (length t) * carry = omega (
          arith,
          r.total,
          ap (λ (x : ℕ). radix (length t) * x) p,
          ap (λ (x : ℕ). radix (length t) * x) q,
        ) in
        rw same (IsReduced-difference t n carry d e r small total)
    by_bits zero (suc zero) p q =
        let same : reduce t carry n ≡ t = rw (reduce, p, q) (select_zero d.limbs t h r.size) in
        let none_c = ap (λ (x : ℕ). radix (length t) * x) p in
        let one_b = ap (λ (x : ℕ). radix (length t) * x) q in
        rw same (record {
          size = e;
          limbs = h;
          below = omega (arith, r.total, high, one_b);
          once = inl (omega (arith, none_c));
        })
    by_bits (suc zero) zero p q =
        let one_c = ap (λ (x : ℕ). radix (length t) * x) p in
        let none_b = ap (λ (x : ℕ). radix (length t) * x) q in
        absurd (omega (arith, r.total, low, one_c, none_b))
    by_bits (suc zero) (suc zero) p q =
        let same : reduce t carry n ≡ d.limbs =
          rw (reduce, p, q) (select_one d.limbs t r.limbs r.size) in
        let total : value d.limbs + value n ≡ value t + radix (length t) * carry = omega (
          arith,
          r.total,
          ap (λ (x : ℕ). radix (length t) * x) p,
          ap (λ (x : ℕ). radix (length t) * x) q,
        ) in
        rw same (IsReduced-difference t n carry d e r small total)
    by_bits zero (suc (suc y)) p q = absurd (omega (arith, r.bit))
    by_bits (suc zero) (suc (suc y)) p q = absurd (omega (arith, r.bit))
    by_bits (suc (suc x)) y p q = absurd (omega arith)
