-- ===== src/Compiler/Ir.antt =====
-- compiler/src/ir.rs: the walks and questions that the stages share.
pub mod Walks
use llvm_metal.Base.{
  ℕ, zero, suc, Bool, true, false, not, Option, none, some, List, [], ◌∷◌, map, flat_map,
  if◌then◌else◌, range,
}
use llvm_metal.Compiler.Llvm.{Llvm, Opcode, TypeKind}
use Prim.Native.String.{String}

-- `chain`, which follows a linked list to null; the first argument bounds its length.
unfoldable pub chain {ℓ} : {T : Type ℓ} → ℕ → Option T → (T → Option T) → List T
chain zero item next = []
chain (suc bound) none next = []
chain (suc bound) (some item) next = item ∷ chain bound (next item) next

module _ (l : Llvm) where
  open l use {Value, Ty, Block, list_bound}

  unfoldable pub functions : List Value
  functions = chain list_bound l.first_function l.next_function

  unfoldable pub globals : List Value
  globals = chain list_bound l.first_global l.next_global

  unfoldable pub blocks : Value → List Block
  blocks function = chain list_bound (l.first_block function) l.next_block

  unfoldable pub block_instructions : Block → List Value
  block_instructions block = chain list_bound (l.first_instruction block) l.next_instruction

  unfoldable pub instructions : Value → List Value
  instructions function = flat_map block_instructions (blocks function)

  unfoldable pub operands : Value → List Value
  operands value = map (l.get_operand value) (range (l.num_operands value))

  unfoldable pub users : Value → List Value
  users value = map l.user (chain list_bound (l.first_use value) l.next_use)

  unfoldable pub defined : Value → Bool
  defined function = not (l.is_declaration function)

  -- The function a call names directly, if it names one.
  unfoldable pub callee : Value → Option Value
  callee call =
      let target = l.called_value call in if l.is_a_function target then some target else none

  unfoldable pub is_pointer : Ty → Bool
  is_pointer ty = elim (l.type_kind ty) [ TypeKind.pointer ↦ true | _ ↦ false ]
