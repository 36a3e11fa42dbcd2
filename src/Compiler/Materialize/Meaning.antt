-- ===== src/Compiler/Materialize/Meaning.antt =====
-- What the values of LLVM that compiler/src/lower/constants.rs builds stand for. The data and what an offset
-- and a conversion compute are LLVM's. A value has two data: what it is to LLVM, where a global has the address of
-- the module's own, and what it is meant to become, where a global has its address in the thread's copy.
use llvm_metal.Base.{
  ℕ, ◌<◌, ◌≡◌, true, false, Option, none, some, List, [], ◌∷◌, map, set, get_elem?, drop,
}
use mathlib.Core.Option
use llvm_metal.Compiler.Llvm.{Llvm, Opcode, TypeKind}
use llvm_metal.Compiler.Ir.{operands, is_pointer}
use llvm_metal.Compiler.Materialize.{
  Made, given, word, const_null, const_array, const_named_struct, const_struct, build_gep,
  build_ptr_to_int, build_extract, build_insert, Parts, nil, cons, refers, offset_at,
}

pub record Meaning (l : Llvm) : Type 1 where
  pub Datum : Type 0
  pub number : ℕ → Datum
  pub aggregate : List Datum → Datum
  pub parts : Datum → List Datum
  pub parts-aggregate : (ds : List Datum) → parts (aggregate ds) ≡ ds
  pub null_of : l.Ty → Datum
  pub gep : l.Ty → Datum → List Datum → Datum
  pub to_integer : Datum → l.Ty → Datum
  -- what an instruction that has the value as an operand reads
  pub denote : l.Value → Datum
  -- the same where every global is at its place in the copy
  pub in_copy : l.Value → Datum

module _ (l : Llvm) (x : Meaning l) where
  open l use {Value, Ty}
  open x use {Datum, denote}

  -- `none` reads or writes a part that is not there.
  unfoldable pub inserted : Datum → ℕ → Datum → Option Datum
  inserted d index value =
      Option.map (λ _. x.aggregate (set (x.parts d) index value)) (get_elem? (x.parts d) index)

  unfoldable mutual
    pub eval : Made Value Ty → Option Datum
    eval (given v) = some (denote v)
    eval (word n) = some (x.number n)
    eval (const_null ty) = some (x.null_of ty)
    eval (const_array ty ps) = Option.map x.aggregate (eval_parts ps)
    eval (const_named_struct ty ps) = Option.map x.aggregate (eval_parts ps)
    eval (const_struct packed ps) = Option.map x.aggregate (eval_parts ps)
    eval (build_gep ty base indices) = elim (eval base) [
      | none ↦ none
      | some b ↦ Option.map (x.gep ty b) (eval_parts indices)
    ]
    eval (build_ptr_to_int base ty) = Option.map (λ b. x.to_integer b ty) (eval base)
    eval (build_extract m index) = elim (eval m) [
      | none ↦ none
      | some d ↦ get_elem? (x.parts d) index
    ]
    eval (build_insert m value index) = elim (eval m) [
      | none ↦ none
      | some d ↦ elim (eval value) [ none ↦ none | some v ↦ inserted d index v ]
    ]

    pub eval_parts : Parts Value Ty → Option (List Datum)
    eval_parts nil = some []
    eval_parts (cons m ps) = elim (eval m) [
      | none ↦ none
      | some d ↦ Option.map (λ ds. d ∷ ds) (eval_parts ps)
    ]

-- The operands of a constant are constants that nest less; so no global leads back to itself through the
-- initializers, which are the operands of globals.
pub record IsAcyclic (l : Llvm) : Type 0 where
  pub operand_nested :
      (c : l.Value) (i : ℕ)
      → l.is_a_constant c ≡ true
      → l.is_a_function c ≡ false
      → i < l.num_operands c
      → (l.is_a_constant (l.get_operand c i) ≡ true) × (l.nesting (l.get_operand c i) < l.nesting c)

-- A constant with addresses is of a kind that `without_addresses` rebuilds.
abbrev pub IsRebuilt : TypeKind → Type 0
IsRebuilt TypeKind.pointer = Unit
IsRebuilt TypeKind.array = Unit
IsRebuilt TypeKind.struct = Unit
IsRebuilt _ = ⊥

-- What a constant is where the globals are in the copy: without addresses it is what it was, the address of a
-- global is its place in the copy, a constant expression is the value of the operation on what its operands are
-- there, and any other constant with addresses has the values of its operands there.
pub record IsMeaning (l : Llvm) (x : Meaning l) (offsets : List (l.Value × ℕ)) (copy : l.Value)
    : Type 0 where
  pub of_plain : (c : l.Value) → refers l c ≡ false → x.in_copy c ≡ x.denote c
  pub of_global :
      (c : l.Value) (offset : ℕ)
      → l.is_a_global_variable c ≡ true
      → offset_at l.value_eq offsets c ≡ some offset
      → x.in_copy c ≡ x.gep l.int8_type (x.denote copy) (x.number offset ∷ [])
  pub of_gep :
      (c : l.Value)
      → l.is_a_constant_expr c ≡ true
      → l.const_opcode c ≡ Opcode.get_element_ptr
      → x.in_copy c
        ≡ x.gep
            (l.gep_source_element_type c)
            (x.in_copy (l.get_operand c 0))
            (map x.in_copy (drop 1 (operands l c)))
  pub of_ptr_to_int :
      (c : l.Value)
      → l.is_a_constant_expr c ≡ true
      → l.const_opcode c ≡ Opcode.ptr_to_int
      → x.in_copy c ≡ x.to_integer (x.in_copy (l.get_operand c 0)) (l.type_of c)
  pub of_aggregate :
      (c : l.Value)
      → refers l c ≡ true
      → is_pointer l (l.type_of c) ≡ false
      → l.is_a_constant_expr c ≡ false
      → x.in_copy c ≡ x.aggregate (map x.in_copy (operands l c))
