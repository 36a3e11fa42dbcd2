-- ===== src/Rsa/Random/Below.antt =====
-- The numbers that `fill` of examples/rsa/src/lib.rs draws are below every modulus with a top limb.
use llvm_metal.Base.{
  ℕ, zero, suc, ◌+◌, ◌-◌, ◌/◌, ◌%◌, ◌^◌, ◌<◌, ◌≤◌, ◌≡◌, refl, sym, ap, ◌∙◌, List, [], ◌∷◌, arith,
  length, replicate, length-replicate, Memᴰ, ◌==◌, if◌then◌else◌,
}
use mathlib.Core.List.Memᴰ
use llvm_metal.Modular.Value.{word, radix, value, IsLimbs}
use llvm_metal.Modular.Residue.{IsReducedLimbs}
use llvm_metal.Rsa.{fl}
use llvm_metal.Rsa.Random.{next_random, random_seed, draw, fill_from, fill_messages, messages}

limb-lt : (i last next : ℕ) → (if i == last then 0 else next / 2 ^ 16 % 2 ^ 32) < word
limb-lt i last next = ground arith

last_limb : (i last v : ℕ) → i + 1 ≡ suc last → (if i == last then 0 else v) ≡ 0
last_limb i last v e = ground arith

-- The radix of all limbs but the top one.
abbrev without_top : ℕ → ℕ
without_top zero = 1
without_top (suc count) = radix count

-- What a draw that ends at the last limb gives.
record IsDrawn (count : ℕ) (xs : List ℕ) : Type 0 where
  size : length xs ≡ count
  limbs : IsLimbs xs
  small : value xs < without_top count

draw_lem :
    (last left i random : ℕ) → i + left ≡ suc last → IsDrawn left (draw last left i random).limbs
unfolding draw
draw_lem last zero i random e = record { size = refl; limbs = tt; small = omega arith }
draw_lem last (suc zero) i random e =
    let top = last_limb i last (next_random random / 2 ^ 16 % 2 ^ 32) e in
    record { size = refl; limbs = (limb-lt i last _, tt); small = omega (arith, top) }
draw_lem last (suc (suc left)) i random e =
    let rest = draw_lem last (suc left) (suc i) (next_random random) (omega arith) in
    let low = limb-lt i last (next_random random) in
    let high : value (draw last (suc left) (suc i) (next_random random)).limbs < radix left =
      rest.small in
    record { size = ap suc rest.size; limbs = (low, rest.limbs); small = omega (arith, low, high) }

-- A drawn number is below a modulus of as many limbs whose top limb is not 0.
pub draw-IsReducedLimbs :
    (n : List ℕ) (last random : ℕ)
    → length n ≡ suc last
    → radix last ≤ value n
    → IsReducedLimbs n (draw last (suc last) 0 random).limbs
draw-IsReducedLimbs n last random size top =
    let drawn = draw_lem last (suc last) 0 random (omega arith) in
    let small : value (draw last (suc last) 0 random).limbs < radix last = drawn.small in
    record { size = drawn.size ∙ sym size; limbs = drawn.limbs; below = omega (arith, small, top) }

fill_from-IsReducedLimbs :
    (n : List ℕ)
    → length n ≡ fl
    → radix (fl - 1) ≤ value n
    → (old : List (List ℕ)) (random : ℕ) (message : List ℕ) → Memᴰ message (fill_from random old)
    → IsReducedLimbs n message
unfolding fill_from
fill_from-IsReducedLimbs n size top [] random message m = absurd (Memᴰ.not-nil m)
fill_from-IsReducedLimbs n size top (old ∷ rest) random message (Memᴰ.head e) =
    rw e (draw-IsReducedLimbs n (fl - 1) random size top)
fill_from-IsReducedLimbs n size top (old ∷ rest) random message (Memᴰ.tail later) =
    fill_from-IsReducedLimbs n size top rest _ message later

length-fill_from : (old : List (List ℕ)) (random : ℕ) → length (fill_from random old) ≡ length old
unfolding fill_from
length-fill_from [] random = refl
length-fill_from (message ∷ rest) random = ap suc (length-fill_from rest _)

-- `messages` makes as many messages as asked, limbs of numbers below every modulus of 64 limbs with a top limb.
pub messages-IsReducedLimbs :
    (count : ℕ) (n : List ℕ)
    → length n ≡ fl
    → radix (fl - 1) ≤ value n
    → (length (messages count) ≡ count)
      × ((message : List ℕ) → Memᴰ message (messages count) → IsReducedLimbs n message)
unfolding messages fill_messages
messages-IsReducedLimbs count n size top = (
  length-fill_from (replicate count (replicate fl 0)) random_seed ∙ length-replicate count _,
  λ message found. fill_from-IsReducedLimbs n size top _ random_seed message found,
)
