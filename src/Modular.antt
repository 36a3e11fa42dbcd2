-- ===== src/Modular.antt =====
-- examples/rsa/kernel/src/modular.rs (and the same text in examples/p256/kernel/src/modular.rs):
-- branchless modular arithmetic on little-endian 32-bit limbs. An array of N limbs is a list; the
-- loops over it are recursions that hand the carry on. Sums of the source in `u64` keep their `% 2 ^ 64`.
mod Examples
pub mod Value
pub mod Select
pub mod Reduce
pub mod Add
pub mod Row
pub mod Montgomery
pub mod Congruence
pub mod Residue
pub mod Scan
pub mod BigEndian
use llvm_metal.Base.{
  ℕ, zero, suc, ◌+◌, ◌-◌, ◌*◌, ◌/◌, ◌%◌, ◌^◌, List, [], ◌∷◌, ◌++◌, bit_and, bit_or, length,
  replicate,
}

-- The limbs that a loop wrote, and the carry or borrow it ended with.
pub record Carried : Type 0 where
  pub limbs : List ℕ
  pub carry : ℕ

-- `wrapping_neg` and `!` of a `u32`
abbrev pub wrapping_neg : ℕ → ℕ
wrapping_neg x = (2 ^ 32 - x) % 2 ^ 32

abbrev pub complement : ℕ → ℕ
complement x = 2 ^ 32 - 1 - x

-- `t - n - borrow` in `u64`
abbrev pub borrow_sub : ℕ → ℕ → ℕ → ℕ
borrow_sub t n borrow = ((t + 2 ^ 64 - n) % 2 ^ 64 + 2 ^ 64 - borrow) % 2 ^ 64

-- The subtracting loop of `reduce` and `modsub`; `(s >> 32) & 1` is `s / 2 ^ 32 % 2`.
pub sub_limbs : ℕ → List ℕ → List ℕ → Carried
sub_limbs borrow [] ns = record { limbs = []; carry = borrow }
sub_limbs borrow (t ∷ ts) [] = record { limbs = []; carry = borrow }
sub_limbs borrow (t ∷ ts) (n ∷ ns) =
    let s = borrow_sub t n borrow in
    let rest = sub_limbs (s / 2 ^ 32 % 2) ts ns in
    record { limbs = s % 2 ^ 32 ∷ rest.limbs; carry = rest.carry }

-- The adding loop of `modadd`.
pub add_limbs : ℕ → List ℕ → List ℕ → Carried
add_limbs c [] bs = record { limbs = []; carry = c }
add_limbs c (a ∷ xs) [] = record { limbs = []; carry = c }
add_limbs c (a ∷ xs) (b ∷ bs) =
    let x = (a + b + c) % 2 ^ 64 in
    let rest = add_limbs (x / 2 ^ 32) xs bs in
    record { limbs = x % 2 ^ 32 ∷ rest.limbs; carry = rest.carry }

-- The adding loop of `modsub`, which adds `n & mask`.
pub add_masked : ℕ → ℕ → List ℕ → List ℕ → Carried
add_masked mask c [] ns = record { limbs = []; carry = c }
add_masked mask c (d ∷ ds) [] = record { limbs = []; carry = c }
add_masked mask c (d ∷ ds) (n ∷ ns) =
    let x = (d + bit_and n mask + c) % 2 ^ 64 in
    let rest = add_masked mask (x / 2 ^ 32) ds ns in
    record { limbs = x % 2 ^ 32 ∷ rest.limbs; carry = rest.carry }

-- The selecting loop of `reduce`.
pub select_limbs : ℕ → List ℕ → List ℕ → List ℕ
select_limbs mask [] ts = []
select_limbs mask (d ∷ ds) [] = []
select_limbs mask (d ∷ ds) (t ∷ ts) =
    bit_or (bit_and d mask) (bit_and t (complement mask)) ∷ select_limbs mask ds ts

pub reduce : List ℕ → ℕ → List ℕ → List ℕ
reduce t carry n =
    let d = sub_limbs 0 t n in
    let mask = wrapping_neg (bit_or carry (1 - d.carry)) in select_limbs mask d.limbs t

pub modadd : List ℕ → List ℕ → List ℕ → List ℕ
modadd a b n = let s = add_limbs 0 a b in reduce s.limbs s.carry n

pub modsub : List ℕ → List ℕ → List ℕ → List ℕ
modsub a b n = let d = sub_limbs 0 a b in (add_masked (wrapping_neg d.carry) 0 d.limbs n).limbs

-- The inner loops of `montmul`: `t + a * k`, from a carry on.
pub mul_add_limbs : ℕ → ℕ → List ℕ → List ℕ → Carried
mul_add_limbs k c [] xs = record { limbs = []; carry = c }
mul_add_limbs k c (t ∷ ts) [] = record { limbs = []; carry = c }
mul_add_limbs k c (t ∷ ts) (a ∷ xs) =
    let s = (t + a * k + c) % 2 ^ 64 in
    let rest = mul_add_limbs k (s / 2 ^ 32) ts xs in
    record { limbs = s % 2 ^ 32 ∷ rest.limbs; carry = rest.carry }

-- The accumulator of `montmul`: the limbs `t`, then `top`.
pub record Accumulator : Type 0 where
  pub t : List ℕ
  pub top : ℕ

-- `t = (t + m * n) >> 32`, from `t`, `top` and `over` as the first half of the round leaves them.
pub shift_row : ℕ → List ℕ → ℕ → ℕ → List ℕ → Accumulator
shift_row n0inv [] top over n = record { t = []; top = top }
shift_row n0inv (t0 ∷ ts) top over [] = record { t = []; top = top }
shift_row n0inv (t0 ∷ ts) top over (n0 ∷ ns) =
    let m = t0 * n0inv % 2 ^ 32 in
    let row = mul_add_limbs m ((t0 + m * n0) % 2 ^ 64 / 2 ^ 32) ts ns in
    let s = (top + row.carry) % 2 ^ 64 in
    record { t = row.limbs ++ (s % 2 ^ 32) ∷ []; top = (over + s / 2 ^ 32) % 2 ^ 32 }

-- One round of the outer loop, for the limb `bi` of `b`.
pub round : List ℕ → List ℕ → ℕ → ℕ → Accumulator → Accumulator
round a n n0inv bi acc =
    let row = mul_add_limbs bi 0 acc.t a in
    let s = (acc.top + row.carry) % 2 ^ 64 in shift_row n0inv row.limbs (s % 2 ^ 32) (s / 2 ^ 32) n

pub rounds : List ℕ → List ℕ → ℕ → List ℕ → Accumulator → Accumulator
rounds a n n0inv [] acc = acc
rounds a n n0inv (bi ∷ bs) acc = rounds a n n0inv bs (round a n n0inv bi acc)

pub montmul : List ℕ → List ℕ → List ℕ → ℕ → List ℕ
montmul a b n n0inv =
    let acc = rounds a n n0inv b (record { t = replicate (length n) 0; top = 0 }) in
    reduce acc.t acc.top n
