-- ===== src/Shallenge/Smaller.antt =====
-- The comparison by masks in `search` of examples/shallenge/kernel/src/lib.rs is that of big-endian numbers.
use llvm_metal.Base.{
  ℕ, ◌+◌, ◌-◌, ◌*◌, ◌^◌, ◌<◌, ◌≤◌, ◌≡◌, refl, ap, Bool, true, false, List, [], ◌∷◌, arith, length,
  ltb, ◌==◌, bit_and, bit_or-zero, if◌then◌else◌, Bool-cases, inl, inr, lt→ltb, le→ltb, ltb→lt,
  ==_iff,
}
use llvm_metal.Modular.{wrapping_neg}
use llvm_metal.Modular.Value.{radix, IsLimbs}
use llvm_metal.Modular.BigEndian.{big_endian, big_endian-lt, high_word, shift_ltb}
use llvm_metal.Shallenge.{bit, smaller_words}

abbrev pub ones : ℕ
ones = 2 ^ 32 - 1

none_of : (b : Bool) → bit_and 0 (wrapping_neg (bit b)) ≡ 0
none_of true = refl
none_of false = refl

-- Once a word differs, the rest changes nothing.
settled : (s : ℕ) (hs bs : List ℕ) → smaller_words s 0 hs bs ≡ s
unfolding smaller_words
settled s [] bs = refl
settled s (h ∷ hs) [] = refl
settled s (h ∷ hs) (b ∷ bs) =
    rw (none_of (ltb h b), none_of (h == b), bit_or-zero s) (settled s hs bs)

-- The mask is all ones exactly if the first number is smaller.
pub smaller_words_lem :
    (hs bs : List ℕ)
    → IsLimbs hs
    → IsLimbs bs
    → length hs ≡ length bs
    → smaller_words 0 ones hs bs ≡ (if ltb (big_endian hs) (big_endian bs) then ones else 0)
unfolding smaller_words
smaller_words_lem [] [] h k e = refl
smaller_words_lem [] (b ∷ bs) h k e = absurd (omega arith)
smaller_words_lem (h ∷ hs) [] l k e = absurd (omega arith)
smaller_words_lem (h ∷ hs) (b ∷ bs) (l, ls) (k, ks) e = elim (Bool-cases (ltb h b)) [
  | inl less ↦
      let same_no : (h == b) ≡ false = ground arith in
      let size : length hs ≡ length bs = omega arith in
      let high : big_endian hs < radix (length bs) = rw (ap radix size) at (big_endian-lt hs ls) in
      let whole =
        high_word (radix (length bs)) (big_endian hs) (big_endian bs) h b (ltb→lt h b less) high in
      rw (less, same_no, ap radix size, lt→ltb _ _ whole) (settled ones hs bs)
  | inr more ↦ elim (Bool-cases (h == b)) [
    | inr differ ↦
        let size : length hs ≡ length bs = omega arith in
        let above : b < h = ground arith in
        let whole =
          high_word (radix (length bs)) (big_endian bs) (big_endian hs) b h above
            (big_endian-lt bs ks) in
        let whole_le : b * radix (length bs) + big_endian bs
            ≤ h * radix (length bs) + big_endian hs =
          omega (arith, whole) in
        rw (more, differ, ap radix size, le→ltb _ _ whole_le) (settled 0 hs bs)
    | inl equal ↦
        let same : h ≡ b = (==_iff h b).0 equal in
        let size : length hs ≡ length bs = omega arith in
        rw
          (
            more,
            equal,
            same,
            ap radix size,
            shift_ltb (b * radix (length bs)) (big_endian hs) (big_endian bs),
          )
          (smaller_words_lem hs bs ls ks size)
  ]
]
