-- ===== src/Compiler/Materialize/Addressed.antt =====
-- `address_constants` of compiler/src/lower/mod.rs: which operands it changes, and to what.
use llvm_metal.Base.{ℕ, suc, Option, some, List, [], ◌∷◌, ◌++◌, flat_map, if◌then◌else◌}
use llvm_metal.Compiler.Llvm.{Llvm}
use llvm_metal.Compiler.Ir.{operands}
use llvm_metal.Compiler.Materialize.{refers, Readdressed, position}
use llvm_metal.Compiler.Materialize.Meaning.{Meaning, eval}

module _ (l : Llvm) (x : Meaning l) where
  open l use {Value, Ty}
  open x use {Datum, in_copy}

  -- The operands that `address_constants` gives a new value, with what they are to become.
  abbrev pub Site : Type 0
  Site = Value × ℕ × Value × Option Datum

  site_of : Value → ℕ → Value → List Site
  site_of instruction index operand =
      if refers l operand
      then (instruction, index, position l instruction index, some (in_copy operand)) ∷ []
      else []

  sites_from : Value → ℕ → List Value → List Site
  sites_from instruction index [] = []
  sites_from instruction index (operand ∷ rest) =
      site_of instruction index operand ++ sites_from instruction (suc index) rest

  -- Each operand that holds the address of a global, at its index, with the place where the value is
  -- computed and the value.
  pub sites : List Value → List Site
  sites = flat_map (λ instruction. sites_from instruction 0 (operands l instruction))

  abbrev pub site : Readdressed l → Site
  site r = (r.instruction, r.index, r.before, eval l x r.value)
