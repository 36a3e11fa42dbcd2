-- ===== src/Modular/Select.antt =====
-- Selection by mask in examples/rsa/kernel/src/modular.rs.
use llvm_metal.Base.{
  ℕ, ◌-◌, ◌^◌, ◌≡◌, refl, List, [], ◌∷◌, arith, length, bit_and-zero, bit_and-ones, bit_or-zero,
  zero-bit_or,
}
use llvm_metal.Modular.{select_limbs, wrapping_neg}
use llvm_metal.Modular.Value.{IsLimbs}

select_all :
    (ds ts : List ℕ) → IsLimbs ds → length ds ≡ length ts → select_limbs (2 ^ 32 - 1) ds ts ≡ ds
unfolding select_limbs
select_all [] [] h e = refl
select_all [] (t ∷ ts) h e = refl
select_all (d ∷ ds) [] h e = absurd (omega arith)
select_all (d ∷ ds) (t ∷ ts) (h, hs) e =
    rw (bit_and-ones 32 d h, bit_and-zero t, bit_or-zero d, select_all ds ts hs (omega arith)) refl

select_none : (ds ts : List ℕ) → IsLimbs ts → length ds ≡ length ts → select_limbs 0 ds ts ≡ ts
unfolding select_limbs
select_none [] [] h e = refl
select_none [] (t ∷ ts) h e = absurd (omega arith)
select_none (d ∷ ds) [] h e = absurd (omega arith)
select_none (d ∷ ds) (t ∷ ts) (h, hs) e =
    rw (bit_and-zero d, bit_and-ones 32 t h, zero-bit_or t, select_none ds ts hs (omega arith)) refl

-- The mask made of one bit chooses the first list for 1 and the second for 0.
pub select_one :
    (ds ts : List ℕ) → IsLimbs ds → length ds ≡ length ts → select_limbs (wrapping_neg 1) ds ts ≡ ds
select_one ds ts = select_all ds ts

pub select_zero :
    (ds ts : List ℕ) → IsLimbs ts → length ds ≡ length ts → select_limbs (wrapping_neg 0) ds ts ≡ ts
select_zero ds ts = select_none ds ts
