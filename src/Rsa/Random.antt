-- ===== src/Rsa/Random.antt =====
-- `fill` and `messages` of examples/rsa/src/lib.rs: random numbers with the top limb clear.
pub mod Below
use llvm_metal.Base.{
  ℕ, zero, suc, ◌-◌, ◌*◌, ◌/◌, ◌%◌, ◌^◌, List, [], ◌∷◌, replicate, ◌==◌, bit_xor, if◌then◌else◌,
}
use llvm_metal.Rsa.{fl}

-- The state that the generator starts from.
abbrev pub random_seed : ℕ
random_seed = 0x9E3779B97F4A7C15

-- One step of the generator, on 64 bits.
pub next_random : ℕ → ℕ
next_random random =
    let first = bit_xor random (random * 2 ^ 13 % 2 ^ 64) in
    let second = bit_xor first (first / 2 ^ 7) in bit_xor second (second * 2 ^ 17 % 2 ^ 64)

-- The limbs that the closure `limb` returned, and the state that it left.
pub record Drawn : Type 0 where
  pub limbs : List ℕ
  pub random : ℕ

-- `std::array::from_fn(&mut limb)` from limb i on; the limb at `last` is 0.
unfoldable pub draw : ℕ → ℕ → ℕ → ℕ → Drawn
draw last zero i random = record { limbs = []; random = random }
draw last (suc left) i random =
    let next = next_random random in
    let limb = if i == last then 0 else next / 2 ^ 16 % 2 ^ 32 in
    let rest = draw last left (suc i) next in
    record { limbs = limb ∷ rest.limbs; random = rest.random }

-- The loop of `fill`.
pub fill_from : ℕ → List (List ℕ) → List (List ℕ)
fill_from random [] = []
fill_from random (message ∷ rest) =
    let drawn = draw (fl - 1) fl 0 random in drawn.limbs ∷ fill_from drawn.random rest

pub fill_messages : List (List ℕ) → List (List ℕ)
fill_messages messages = fill_from random_seed messages

pub messages : ℕ → List (List ℕ)
messages count = fill_messages (replicate count (replicate fl 0))
