-- ===== src/Rsa.antt =====
-- examples/rsa/kernel/src/lib.rs: one RSA signature. A half key is the one side of the CRT; its numbers
-- are `hl` limbs, and the loops over limbs and windows go along lists of them.
pub mod Ladder
pub mod Exponent
pub mod Garner
pub mod Signature
pub mod Key
pub mod Public
pub mod Entry
pub mod Random
mod Examples
use llvm_metal.Base.{
  ℕ, zero, suc, ◌+◌, ◌-◌, ◌*◌, ◌/◌, ◌%◌, ◌^◌, List, [], ◌∷◌, ◌++◌, map, range, length, get_or, take,
  drop, replicate, flat_map,
}
use mathlib.Core.List.{reverse}
use llvm_metal.Modular.{montmul, modadd, modsub, mul_add_limbs}

-- `HL`, `FL`, `WINDOW` and `TBL`
abbrev pub hl : ℕ
hl = 32

abbrev pub fl : ℕ
fl = 64

abbrev pub window : ℕ
window = 4

abbrev pub tbl : ℕ
tbl = 2 ^ window

pub record HalfKey : Type 0 where
  pub modulus : List ℕ
  pub exponent : List ℕ
  pub one : List ℕ
  pub r2 : List ℕ
  pub r3 : List ℕ
  pub n0inv : ℕ

-- The windows of a limb, the highest first; `& (TBL - 1)` is `% TBL`.
pub windows : ℕ → List ℕ
windows limb = map (λ step. limb / 2 ^ (32 - window * (step + 1)) % tbl) (range (32 / window))

module _ (m : List ℕ) (n0inv : ℕ) where
  -- `count` entries of the table from `last` on, each the product of the one before and x.
  pub powers : List ℕ → ℕ → List ℕ → List (List ℕ)
  powers x zero last = []
  powers x (suc count) last = last ∷ powers x count (montmul last x m n0inv)

  -- `WINDOW` squarings
  pub squarings : ℕ → List ℕ → List ℕ
  squarings zero acc = acc
  squarings (suc count) acc = squarings count (montmul acc acc m n0inv)

  -- The loop over the windows, the highest first.
  pub ladder : List (List ℕ) → List ℕ → List ℕ → List ℕ
  ladder table [] acc = acc
  ladder table (digit ∷ digits) acc =
      ladder table digits (montmul (squarings window acc) (get_or table digit []) m n0inv)

-- The digits of an exponent, as the two outer loops meet them.
pub digits_of : List ℕ → List ℕ
digits_of exponent = flat_map windows (reverse exponent)

-- The message in Montgomery form.
pub enter : List ℕ → HalfKey → List ℕ
enter message key =
    modadd (montmul (take hl message) key.r2 key.modulus key.n0inv)
      (montmul (take hl (drop hl message)) key.r3 key.modulus key.n0inv) key.modulus

pub modexp_half : List ℕ → HalfKey → List ℕ
modexp_half message key =
    let x = enter message key in
    let table = key.one ∷ powers key.modulus key.n0inv x (tbl - 1) x in
    let acc = ladder key.modulus key.n0inv table (digits_of key.exponent) key.one in
    montmul acc (1 ∷ replicate (hl - 1) 0) key.modulus key.n0inv

pub record SignKey : Type 0 where
  pub p : HalfKey
  pub q : HalfKey
  pub qinv_r : List ℕ

-- The carry ripple of `sign_one`.
pub ripple : ℕ → List ℕ → List ℕ
ripple carry [] = []
ripple carry (x ∷ xs) =
    let s = (x + carry) % 2 ^ 64 in let rest = ripple (s / 2 ^ 32) xs in s % 2 ^ 32 ∷ rest

-- One round of the loop over h, on the limbs of `out` from i on.
pub garner_row : ℕ → List ℕ → List ℕ → List ℕ
garner_row hi q out =
    let row = mul_add_limbs hi 0 (take hl out) q in row.limbs ++ ripple row.carry (drop hl out)

-- The rounds; the limb at i is final after round i.
pub garner : List ℕ → List ℕ → List ℕ → List ℕ
garner [] q out = out
garner (hi ∷ hs) q out = elim (garner_row hi q out) [ [] ↦ [] | x ∷ rest ↦ x ∷ garner hs q rest ]

pub sign_one : List ℕ → SignKey → List ℕ
sign_one message key =
    let m1 = modexp_half message key.p in
    let m2 = modexp_half message key.q in
    let d = modsub m1 m2 key.p.modulus in
    let h = montmul d key.qinv_r key.p.modulus key.p.n0inv in
    garner h key.q.modulus (m2 ++ replicate (fl - hl) 0)
