-- ===== src/Compiler/Entry.antt =====
-- compiler/src/lower/mod.rs: the body of `entry`, the function that Metal calls, as the instructions that it builds
-- in order. The parameters of the function are those of `entry_parameters`; `none` is a panic.
pub mod Steps
pub mod Prologue
pub mod Arguments
mod Examples
use mathlib.Core.Option
use llvm_metal.Base.{
  ℕ, Option, none, some, List, [], ◌∷◌, ◌++◌, map, range, length, ltb, if◌then◌else◌,
}
use llvm_metal.Compiler.Llvm.{Llvm}
use llvm_metal.Compiler.Image.{Relocation, Image}
use llvm_metal.Compiler.Materialize.{Made, materialize}
use llvm_metal.Compiler.Emit.{entry_parameters}

-- An argument of the call of the kernel.
pub data Argument : Type 0 where
  own_parameter : ℕ → Argument
  the_copy : Argument

-- An instruction of the entry: memory of so many bytes at an alignment, `llvm.memcpy` of so many bytes from the
-- image to it, the store of an address at an offset in it, the call of the kernel and the return.
pub data Step (V T : Type 0) : Type 0 where
  alloca : ℕ → ℕ → Step V T
  copy_image : ℕ → Step V T
  store_address : Made V T → ℕ → Step V T
  call_kernel : List Argument → Step V T
  return_void : Step V T

-- `launch`, of the parameters and the copy
pub entry_arguments : ℕ → List Argument
entry_arguments buffers =
    map own_parameter (range (length (entry_parameters buffers))) ++ (the_copy ∷ [])

module _ (l : Llvm) where
  open l use {Value, Ty}

  -- The loop over the relocations.
  pub relocated :
      ℕ → List (Value × ℕ) → Value → List (Relocation Value) → Option (List (Step Value Ty))
  relocated fuel offsets copy [] = some []
  relocated fuel offsets copy (r ∷ rs) =
      let rest = relocated fuel offsets copy rs in
      elim (materialize l fuel offsets copy r.target) [
        | none ↦ none
        | some address ↦ Option.map (λ steps. store_address address r.offset ∷ steps) rest
      ]

  pub entry : ℕ → ℕ → Image Value Ty → Value → Option (List (Step Value Ty))
  entry fuel buffers image copy =
      Option.map
        (λ stores.
          alloca (if ltb image.size 1 then 1 else image.size) image.alignment
          ∷ copy_image image.size
          ∷ (stores ++ (call_kernel (entry_arguments buffers) ∷ return_void ∷ [])))
        (relocated fuel image.offsets copy image.relocations)
