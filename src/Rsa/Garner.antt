-- ===== src/Rsa/Garner.antt =====
-- The recombination in `sign_one` of examples/rsa/kernel/src/lib.rs adds h * q.
use llvm_metal.Base.{
  ℕ, zero, suc, ◌+◌, ◌*◌, ◌/◌, ◌%◌, ◌^◌, ◌<◌, ◌≡◌, refl, sym, ◌∙◌, ap, List, [], ◌∷◌, arith, length,
  length-append, take, drop,
}
use llvm_metal.Modular.{mul_add_limbs}
use llvm_metal.Modular.Value.{word, radix, value, IsLimbs, value-append, IsLimbs-append}
use llvm_metal.Modular.Row.{mul_add_limbs_lem}
use llvm_metal.Rsa.{hl, ripple, garner_row, garner}
use llvm_metal.Rsa.Exponent.{take-drop-value, take-IsLimbs, drop-IsLimbs, length-take-drop}

-- Limbs of a number modulo the power of the word: `over` is what a carry out of them would be.
record IsWrapped (count total : ℕ) (r : List ℕ) : Type 0 where
  size : length r ≡ count
  limbs : IsLimbs r
  over : ℕ
  total_lem : value r + radix count * over ≡ total

ripple_lem :
    (carry : ℕ) (xs : List ℕ)
    → carry < word
    → IsLimbs xs
    → IsWrapped (length xs) (value xs + carry) (ripple carry xs)
unfolding ripple
ripple_lem carry [] hc h = record { size = refl; limbs = tt; over = carry; total_lem = omega arith }
ripple_lem carry (x ∷ xs) hc (h, hs) =
    let s = (x + carry) % 2 ^ 64 in
    let r = ripple_lem (s / 2 ^ 32) xs (omega arith) hs in
    record {
      size = ap suc r.size;
      limbs = (omega arith, r.limbs);
      over = r.over;
      total_lem = omega (arith, r.total_lem);
    }

pub radix-add : (a b : ℕ) → radix (a + b) ≡ radix a * radix b
radix-add zero b = let p : 0 + b ≡ b = omega arith in ap radix p ∙ omega arith
radix-add (suc a) b =
    let p : suc a + b ≡ suc (a + b) = omega arith in
    ap radix p ∙ omega (arith, ap (λ (z : ℕ). word * z) (radix-add a b))

row_total :
    (v vl vr low high out r rh carry over hi q : ℕ)
    → v ≡ vl + r * vr
    → vl + r * carry ≡ low + q * hi + 0
    → vr + rh * over ≡ high + carry
    → out ≡ low + r * high
    → v + r * rh * over ≡ out + hi * q
row_total v vl vr low high out r rh carry over hi q joined first second split =
    omega (arith, joined, first, split, ap (λ (z : ℕ). r * z) second)

garner_row_lem :
    (hi : ℕ) (q out : List ℕ) (rest : ℕ)
    → hi < word
    → IsLimbs q
    → IsLimbs out
    → length q ≡ hl
    → length out ≡ hl + rest
    → IsWrapped (length out) (value out + hi * value q) (garner_row hi q out)
unfolding garner_row
garner_row_lem hi q out rest hh hq ho eq eo =
    let (low_size, high_size) = length-take-drop hl out rest eo in
    let low = take hl out in
    let high = drop hl out in
    let a =
      mul_add_limbs_lem hi 0 low q hh (omega arith) (take-IsLimbs hl out ho) hq
        (low_size ∙ sym eq) in
    let row = mul_add_limbs hi 0 low q in
    let b = ripple_lem row.carry high a.carry_word (drop-IsLimbs hl out ho) in
    let rest_row = ripple row.carry high in
    let split = take-drop-value hl out rest eo in
    let joined = value-append row.limbs rest_row in
    let low_power = ap radix (a.size ∙ low_size) in
    let power : radix (length out) ≡ radix hl * radix (length high) =
      ap radix (eo ∙ ap (λ (k : ℕ). hl + k) (sym high_size)) ∙ radix-add hl (length high) in
    record {
      size =
          omega (arith, length-append row.limbs rest_row, a.size, b.size, low_size, high_size, eo);
      limbs = IsLimbs-append row.limbs rest_row a.limbs b.limbs;
      over = b.over;
      total_lem = rw power (
          row_total _ (value row.limbs) (value rest_row) (value low) (value high) (value out)
            (radix hl) (radix (length high)) row.carry b.over hi (value q) (rw low_power at joined)
            (rw (ap radix low_size) at a.total) b.total_lem split);
    }

-- What fits is not wrapped.
exact : (power v over total : ℕ) → v + power * over ≡ total → total < power → v ≡ total
exact power v zero total e h = omega arith
exact power v (suc over) total e h = absurd (omega arith)

-- The rounds add h * q to `out`, where that fits.
pub garner_lem :
    (h q out : List ℕ) (rest : ℕ)
    → IsLimbs h
    → IsLimbs q
    → IsLimbs out
    → length q ≡ hl
    → length out ≡ hl + (length h + rest)
    → value out + value h * value q < radix (length out)
    → (length (garner h q out) ≡ length out)
      × IsLimbs (garner h q out)
      × (value (garner h q out) ≡ value out + value h * value q)
unfolding garner
garner_lem [] q out rest lh lq lo eq eo small = (refl, lo, omega arith)
garner_lem (hi ∷ hs) q out rest (h, lh) lq lo eq eo small =
    next (garner_row hi q out) (garner_row_lem hi q out _ h lq lo eq eo) (garner_lem hs q)
  where
    next :
        (row : List ℕ)
        → IsWrapped (length out) (value out + hi * value q) row
        → ((r : List ℕ) (rest : ℕ)
            → IsLimbs hs
            → IsLimbs q
            → IsLimbs r
            → length q ≡ hl
            → length r ≡ hl + (length hs + rest)
            → value r + value hs * value q < radix (length r)
            → (length (garner hs q r) ≡ length r)
              × IsLimbs (garner hs q r)
              × (value (garner hs q r) ≡ value r + value hs * value q))
        → (length (elim row [ [] ↦ [] | x ∷ r ↦ x ∷ garner hs q r ]) ≡ length out)
          × IsLimbs (elim row [ [] ↦ [] | x ∷ r ↦ x ∷ garner hs q r ])
          × (value (elim row [ [] ↦ [] | x ∷ r ↦ x ∷ garner hs q r ])
              ≡ value out + (hi + word * value hs) * value q)
    next [] w more = absurd (omega (arith, w.size, eo))
    next (x ∷ r) w more =
        let e =
          exact (radix (length out)) (x + word * value r) w.over (value out + hi * value q)
            w.total_lem (omega (arith, small)) in
        let power : word * radix (length r) ≡ radix (length out) = ap radix w.size in
        let fits : value r + value hs * value q < radix (length r) =
          omega (arith, e, small, power, w.limbs.0) in
        let (size, limbs, total) =
          more r rest lh lq w.limbs.1 eq (omega (arith, w.size, eo)) fits in
        (omega (arith, size, w.size), (w.limbs.0, limbs), omega (arith, total, e))
