-- ===== src/Rsa/Public.antt =====
-- examples/rsa/src/key.rs: the public key, and the check of a signature with it.
pub mod Power
pub mod Checked
mod Examples
use llvm_metal.Base.{
  ℕ, zero, suc, ◌-◌, ◌*◌, Bool, true, false, ◌&&◌, List, [], ◌∷◌, replicate, get_or, ◌==◌,
}
use llvm_metal.Modular.{montmul}
use llvm_metal.Rsa.{fl, squarings}
use llvm_metal.Rsa.Key.{power_of_two, n0inv}

pub record PublicKey : Type 0 where
  pub n : List ℕ
  pub r2 : List ℕ
  pub n0inv : ℕ

-- `public_key`, of the limbs that `limbs` reads off the text.
pub public_key : List ℕ → PublicKey
public_key n = record { n = n; r2 = power_of_two (64 * fl) n; n0inv = n0inv (get_or n 0 0) }

-- `==` on arrays of limbs
pub equal_limbs : List ℕ → List ℕ → Bool
equal_limbs [] [] = true
equal_limbs [] (y ∷ ys) = false
equal_limbs (x ∷ xs) [] = false
equal_limbs (x ∷ xs) (y ∷ ys) = x == y && equal_limbs xs ys

-- What `verifies` compares with the message. The rounds of its loop are those of `squarings`.
pub opened : PublicKey → List ℕ → List ℕ
opened key signature =
    let s = montmul signature key.r2 key.n key.n0inv in
    let acc = squarings key.n key.n0inv 16 s in
    montmul (montmul acc s key.n key.n0inv) (1 ∷ replicate (fl - 1) 0) key.n key.n0inv

pub verifies : PublicKey → List ℕ → List ℕ → Bool
verifies key signature message = equal_limbs (opened key signature) message
