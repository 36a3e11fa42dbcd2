-- ===== src/Compiler/Materialize/Cyclic.antt =====
-- `without_addresses` of compiler/src/lower/constants.rs on globals that lead back to themselves.
use llvm_metal.Base.{ℕ, zero, suc, ◌≡◌, refl, true, none, Option, List, [], ◌∷◌, map, Memᴰ, arith}
use llvm_metal.Compiler.Llvm.{Llvm}
use llvm_metal.Compiler.Ir.{operands}
use llvm_metal.Compiler.Materialize.{Made, collected, refers, without_addresses}

collected-none :
    {V T : Type 0} (f : V → Option (Made V T)) (vs : List V) (v : V)
    → Memᴰ v vs
    → f v ≡ none
    → collected (map f vs) ≡ none
unfolding collected
collected-none f [] v m h = elim m [ ]
collected-none f (w ∷ vs) v (Memᴰ.head e) h = rw (← e, h) refl
collected-none f (w ∷ vs) v (Memᴰ.tail m) h = ground (arith, collected-none f vs v m h)

module _ (l : Llvm) where
  open l use {Value}

  -- Where a constant holds the address of a global and the constant is the global's initializer, which is the
  -- operand of a global, `without_addresses` does not end: no fuel is enough for the constant or the global.
  pub without_addresses-cyclic :
      (constant global : Value)
      → refers l constant ≡ true
      → refers l global ≡ true
      → Memᴰ global (operands l constant)
      → Memᴰ constant (operands l global)
      → (fuel : ℕ)
      → (without_addresses l fuel constant ≡ none) × (without_addresses l fuel global ≡ none)
  unfolding without_addresses
  without_addresses-cyclic constant global c g into back zero = (refl, refl)
  without_addresses-cyclic constant global c g into back (suc fuel) =
      let (of_constant, of_global) = without_addresses-cyclic constant global c g into back fuel in
      (
        rw (without_addresses, c, collected-none _ _ global into of_global) refl,
        rw (without_addresses, g, collected-none _ _ constant back of_constant) refl,
      )
