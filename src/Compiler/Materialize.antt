-- ===== src/Compiler/Materialize.antt =====
-- compiler/src/lower/constants.rs: `materialize`, `insert` and `without_addresses`, and `address_constants` of
-- compiler/src/lower/mod.rs. A constant or an instruction that LLVM is asked for is data (`Made`); the
-- recursions run on fuel, `none` is a panic of the compiler or a recursion that has not ended.
pub mod Meaning
pub mod Patched
pub mod Stable
pub mod Rebuilt
pub mod Restored
pub mod Built
pub mod Addressed
pub mod Cyclic
pub mod Examples
use mathlib.Core.Option
use llvm_metal.Base.{
  ℕ, zero, suc, Bool, true, false, not, Option, none, some, List, [], ◌∷◌, ◌++◌, map, drop,
  if◌then◌else◌,
}
use llvm_metal.Compiler.Llvm.{Llvm, Opcode, TypeKind}
use llvm_metal.Compiler.Ir.{operands, instructions}
use llvm_metal.Compiler.Constants.{refers_within, addresses}

mutual
  pub data Made (V T : Type 0) : Type 0 where
    -- a value that is there already
    given : V → Made V T
    -- `LLVMConstInt` of 64 bits
    word : ℕ → Made V T
    const_null : T → Made V T
    const_array const_named_struct : T → Parts V T → Made V T
    const_struct : Bool → Parts V T → Made V T
    build_gep : T → Made V T → Parts V T → Made V T
    build_ptr_to_int : Made V T → T → Made V T
    build_extract : Made V T → ℕ → Made V T
    build_insert : Made V T → Made V T → ℕ → Made V T

  pub data Parts (V T : Type 0) : Type 0 where
    nil : Parts V T
    cons : Made V T → Parts V T → Parts V T

-- `collect`, of parts of which each may panic.
pub collected : {V T : Type 0} → List (Option (Made V T)) → Option (Parts V T)
collected [] = some nil
collected (none ∷ rest) = none
collected (some part ∷ rest) = Option.map (cons part) (collected rest)

pub givens : {V T : Type 0} → List V → Parts V T
givens [] = nil
givens (v ∷ vs) = cons (given v) (givens vs)

-- `insert`: an address goes into the aggregate at the end of a path of indices.
pub insert : {V T : Type 0} → Made V T → List ℕ → Made V T → Option (Made V T)
insert aggregate [] value = none
insert aggregate (first ∷ []) value = some (build_insert aggregate value first)
insert aggregate (first ∷ (second ∷ rest)) value =
    Option.map (λ inner. build_insert aggregate inner first)
      (insert (build_extract aggregate first) (second ∷ rest) value)

-- `offsets[&global]`
pub offset_at : {V : Type 0} → Discrete V → List (V × ℕ) → V → Option ℕ
offset_at eq [] global = none
offset_at eq ((other, offset) ∷ rest) global = elim (eq other global) [
  | yes _ ↦ some offset
  | no _ ↦ offset_at eq rest global
]

module _ (l : Llvm) where
  open l use {Value, Ty}

  unfoldable pub refers : Value → Bool
  refers constant = refers_within l (suc (l.nesting constant)) constant

  -- The constant of the same type with these parts.
  pub rebuilt : Ty → Parts Value Ty → Option (Made Value Ty)
  rebuilt ty parts = elim (l.type_kind ty) [
    | TypeKind.pointer ↦ some (const_null ty)
    | TypeKind.array ↦ some (const_array (l.element_type ty) parts)
    | TypeKind.struct ↦
        if l.is_named_struct ty
        then some (const_named_struct ty parts)
        else some (const_struct (l.is_packed_struct ty) parts)
    | _ ↦ none
  ]

  pub without_addresses : ℕ → Value → Option (Made Value Ty)
  without_addresses zero constant = none
  without_addresses (suc fuel) constant = elim (refers constant) [
    | false ↦ some (given constant)
    | true ↦ elim (collected (map (without_addresses fuel) (operands l constant))) [
      | none ↦ none
      | some parts ↦ rebuilt (l.type_of constant) parts
    ]
  ]

  -- A constant expression on what its first operand has become.
  pub expression : Value → Made Value Ty → Option (Made Value Ty)
  expression constant base = elim (l.const_opcode constant) [
    | Opcode.get_element_ptr ↦ some (
        build_gep (l.gep_source_element_type constant) base (givens (drop 1 (operands l constant))))
    | Opcode.ptr_to_int ↦ some (build_ptr_to_int base (l.type_of constant))
    | _ ↦ none
  ]

  -- The loop over the addresses of an aggregate; the first argument is `materialize`.
  pub insert_all :
      (Value → Option (Made Value Ty))
      → Made Value Ty
      → List (List ℕ × Value)
      → Option (Made Value Ty)
  insert_all materialized value [] = some value
  insert_all materialized value ((path, target) ∷ rest) = elim (materialized target) [
    | none ↦ none
    | some address ↦ elim (insert value path address) [
      | none ↦ none
      | some next ↦ insert_all materialized next rest
    ]
  ]

  pub materialize : ℕ → List (Value × ℕ) → Value → Value → Option (Made Value Ty)
  materialize zero offsets copy constant = none
  materialize (suc fuel) offsets copy constant = elim (refers constant) [
    | false ↦ some (given constant)
    | true ↦ elim (l.is_a_global_variable constant) [
      | true ↦
          Option.map (λ offset. build_gep l.int8_type (given copy) (cons (word offset) nil))
            (offset_at l.value_eq offsets constant)
      | false ↦ elim (l.is_a_constant_expr constant) [
        | true ↦ elim (materialize fuel offsets copy (l.get_operand constant 0)) [
          | none ↦ none
          | some base ↦ expression constant base
        ]
        | false ↦ elim (without_addresses (suc fuel) constant) [
          | none ↦ none
          | some value ↦ insert_all (materialize fuel offsets copy) value (addresses l constant)
        ]
      ]
    ]
  ]

  -- `LLVMSetOperand`, with the instruction before which the value is built.
  pub record Readdressed : Type 0 where
    pub instruction : Value
    pub index : ℕ
    pub before : Value
    pub value : Made Value Ty

  pub position : Value → ℕ → Value
  position instruction index =
      if not (l.is_a_phi_node instruction)
      then instruction
      else l.basic_block_terminator (l.incoming_block instruction index)

  -- The inner loop, over operands from an index on.
  pub readdress : ℕ → List (Value × ℕ) → Value → Value → ℕ → List Value → Option (List Readdressed)
  readdress fuel offsets copy instruction index [] = some []
  readdress fuel offsets copy instruction index (operand ∷ rest) =
      let others = readdress fuel offsets copy instruction (suc index) rest in
      elim (refers operand) [
        | false ↦ others
        | true ↦ elim (materialize fuel offsets copy operand) [
          | none ↦ none
          | some value ↦
              Option.map
                (λ later.
                  record {
                    instruction = instruction;
                    index = index;
                    before = position instruction index;
                    value = value;
                  }
                  ∷ later)
                others
        ]
      ]

  pub readdress_all : ℕ → List (Value × ℕ) → Value → List Value → Option (List Readdressed)
  readdress_all fuel offsets copy [] = some []
  readdress_all fuel offsets copy (instruction ∷ rest) =
      elim (readdress fuel offsets copy instruction 0 (operands l instruction)) [
        | none ↦ none
        | some edits ↦ Option.map (λ later. edits ++ later) (readdress_all fuel offsets copy rest)
      ]

  pub address_constants : ℕ → List (Value × ℕ) → Value → Value → Option (List Readdressed)
  address_constants fuel offsets function copy =
      readdress_all fuel offsets copy (instructions l function)
