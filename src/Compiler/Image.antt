-- ===== src/Compiler/Image.antt =====
-- `image` of compiler/src/lower/constants.rs: where the globals sit in the image, what the image is, and which
-- addresses inside it are relocated. `none` is a panic, or a call of `without_addresses` that has not ended.
pub mod Placed
mod Examples
use llvm_metal.Base.{
  ℕ, ◌+◌, ◌-◌, ◌%◌, Option, none, some, List, [], ◌∷◌, ◌++◌, map, ltb, ◌==◌, if◌then◌else◌,
}
use llvm_metal.Compiler.Llvm.{Llvm}
use llvm_metal.Compiler.Ir.{globals}
use llvm_metal.Compiler.Constants.{u64, offset_of, addresses}
use llvm_metal.Compiler.Materialize.{Made, without_addresses}

-- `size.next_multiple_of(align) - size`
pub padding : ℕ → ℕ → ℕ
padding size align = (align - size % align) % align

pub record Relocation (V : Type 0) : Type 0 where
  pub offset : ℕ
  pub target : V

-- One part of the constant: zero bytes in front of a global, or its initializer without addresses.
pub data Part (V T : Type 0) : Type 0 where
  zeros : ℕ → Part V T
  initial : Made V T → Part V T

-- `Image`, with the parts of the constant that is the value of its global, and the relocations.
pub record Image (V T : Type 0) : Type 0 where
  pub parts : List (Part V T)
  pub offsets : List (V × ℕ)
  pub relocations : List (Relocation V)
  pub size : ℕ
  pub alignment : ℕ

module _ (l : Llvm) where
  open l use {Value, Ty}

  -- `LLVMGetAlignment(global).max(1)`
  pub align_of : Value → ℕ
  align_of global = if ltb (l.get_alignment global) 1 then 1 else l.get_alignment global

  -- The relocations of a global that sits at `start`.
  pub relocations_of : ℕ → Value → List (Relocation Value)
  relocations_of start initializer =
      map
        (λ (path, target). record {
          offset = u64 (start + offset_of l (l.type_of initializer) path);
          target = target;
        })
        (addresses l initializer)

  -- The loop of `image`, from a size and alignment on; the fuel is that of `without_addresses`.
  pub place : ℕ → ℕ → ℕ → List Value → Option (Image Value Ty)
  place fuel size alignment [] =
      some
        (record { parts = []; offsets = []; relocations = []; size = size; alignment = alignment })
  place fuel size alignment (global ∷ rest) =
      let align = align_of global in
      let gap = padding size align in
      let start = u64 (size + gap) in
      let more = λ (abi : ℕ).
        place fuel (u64 (start + abi)) (if ltb alignment align then align else alignment) rest in
      elim (l.get_initializer global) [
        | none ↦ none
        | some initializer ↦ elim (without_addresses l fuel initializer) [
          | none ↦ none
          | some cleared ↦ elim (more (l.abi_size (l.type_of initializer))) [
            | none ↦ none
            | some later ↦ some (record {
              parts =
                  if gap == 0
                  then initial cleared ∷ later.parts
                  else zeros gap ∷ (initial cleared ∷ later.parts);
              offsets = (global, start) ∷ later.offsets;
              relocations = relocations_of start initializer ++ later.relocations;
              size = later.size;
              alignment = later.alignment;
            })
          ]
        ]
      ]

  pub image : ℕ → Option (Image Value Ty)
  image fuel = place fuel 0 1 (globals l)
