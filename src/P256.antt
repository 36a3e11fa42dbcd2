-- ===== src/P256.antt =====
-- examples/p256/kernel/src/field.rs: arithmetic modulo one 256-bit prime, in Montgomery form. The table
-- and the ladder of `invert` are the loops of examples/rsa/kernel/src/lib.rs, of eight limbs.
pub mod Laws
pub mod Point
pub mod Curve
pub mod Entry
pub mod Random
use llvm_metal.Base.{ℕ, ◌-◌, List, [], ◌∷◌, replicate}
use llvm_metal.Modular.{montmul, modadd, modsub}
use llvm_metal.Rsa.{tbl, powers, ladder, digits_of}

-- `L`
abbrev pub limb_count : ℕ
limb_count = 8

pub record Field : Type 0 where
  pub modulus : List ℕ
  pub one : List ℕ
  pub r2 : List ℕ
  pub inverse_exponent : List ℕ
  pub n0inv : ℕ

module _ (f : Field) where
  pub mul : List ℕ → List ℕ → List ℕ
  mul a b = montmul a b f.modulus f.n0inv

  pub add : List ℕ → List ℕ → List ℕ
  add a b = modadd a b f.modulus

  pub sub : List ℕ → List ℕ → List ℕ
  sub a b = modsub a b f.modulus

  pub triple : List ℕ → List ℕ
  triple a = add (add a a) a

  pub enter : List ℕ → List ℕ
  enter a = mul a f.r2

  pub leave : List ℕ → List ℕ
  leave a = mul a (1 ∷ replicate (limb_count - 1) 0)

  pub invert : List ℕ → List ℕ
  invert a =
      let table = f.one ∷ powers f.modulus f.n0inv a (tbl - 1) a in
      ladder f.modulus f.n0inv table (digits_of f.inverse_exponent) f.one
