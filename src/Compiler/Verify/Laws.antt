-- ===== src/Compiler/Verify/Laws.antt =====
-- What compiler/src/verify.rs relies on of LLVM: documented facts about the values of a module.
use llvm_metal.Base.{ℕ, ◌<◌, ◌≡◌, true, false, none, some, Memᴰ}
use llvm_metal.Compiler.Llvm.{Llvm, Opcode, TypeKind}
use llvm_metal.Compiler.Ir.{functions, is_pointer}

pub record IsModule (l : Llvm) : Type 0 where
  -- A function value belongs to the module, and a declaration has no body.
  pub function_listed : (f : l.Value) → l.is_a_function f ≡ true → Memᴰ f (functions l)
  pub declaration_empty : (f : l.Value) → l.is_declaration f ≡ true → l.first_block f ≡ none
  -- Types are finite trees.
  pub array_nested :
      (ty : l.Ty)
      → l.type_kind ty ≡ TypeKind.array
      → l.type_nesting (l.element_type ty) < l.type_nesting ty
  pub vector_nested :
      (ty : l.Ty)
      → l.type_kind ty ≡ TypeKind.vector
      → l.type_nesting (l.element_type ty) < l.type_nesting ty
  pub struct_nested :
      (ty : l.Ty) (field : ℕ)
      → l.type_kind ty ≡ TypeKind.struct
      → field < l.count_struct_element_types ty
      → l.type_nesting (l.struct_type_at ty field) < l.type_nesting ty
  -- The operands of a constant without an address are constants, and nest less than it does.
  pub part_nested :
      (c : l.Value) (i : ℕ)
      → l.is_a_constant c ≡ true
      → is_pointer l (l.type_of c) ≡ false
      → i < l.num_operands c
      → (l.is_a_constant (l.get_operand c i) ≡ true) × (l.nesting (l.get_operand c i) < l.nesting c)
  -- The base of a constant offset from a pointer is a constant pointer that nests less.
  pub base_nested :
      (c : l.Value)
      → l.is_a_constant_expr c ≡ true
      → l.const_opcode c ≡ Opcode.get_element_ptr
      → (l.is_a_constant (l.get_operand c 0) ≡ true)
        × (is_pointer l (l.type_of (l.get_operand c 0)) ≡ true)
        × (l.nesting (l.get_operand c 0) < l.nesting c)
  pub initializer_constant :
      (g c : l.Value) → l.get_initializer g ≡ some c → l.is_a_constant c ≡ true
