-- ===== src/Compiler/Llvm.antt =====
-- What the compiler's stages ask of LLVM through its C API (inkwell's `llvm_sys`), for one module
-- at one moment. LLVM is not part of this repository: each field is one C call, named after it,
-- and a null pointer is `none`. The last three fields are no calls; they bound the module's lists
-- and the nesting of its constants and types, so that the walks over them end.
use Prim.Native.String.{String}
use llvm_metal.Base.{ℕ, Bool, Option}

-- `LLVMOpcode`, with the three that the source names.
pub data Opcode : Type 0 where
  int_to_ptr get_element_ptr ptr_to_int : Opcode
  other_opcode : ℕ → Opcode

-- `LLVMTypeKind`, with the ones that the source names.
pub data TypeKind : Type 0 where
  integer array vector struct pointer void : TypeKind
  other_kind : ℕ → TypeKind

pub record Llvm : Type 1 where
  pub Value : Type 0
  pub Ty : Type 0
  pub Block : Type 0
  -- one use of a value
  pub Use : Type 0
  pub first_use : Value → Option Use
  pub next_use : Use → Option Use
  pub user : Use → Value
  -- equality of the pointers
  pub value_eq : Discrete Value
  pub first_function : Option Value
  pub next_function : Value → Option Value
  pub first_global : Option Value
  pub next_global : Value → Option Value
  pub first_block : Value → Option Block
  pub next_block : Block → Option Block
  pub first_instruction : Block → Option Value
  pub next_instruction : Value → Option Value
  pub num_operands : Value → ℕ
  pub get_operand : Value → ℕ → Value
  pub value_name : Value → String
  pub is_declaration : Value → Bool
  pub instruction_opcode : Value → Opcode
  pub const_opcode : Value → Opcode
  pub is_a_call_inst : Value → Bool
  pub called_value : Value → Value
  pub is_a_function : Value → Bool
  pub num_arg_operands : Value → ℕ
  -- `LLVMCountParamTypes` of a function's type
  pub count_params : Value → ℕ
  pub get_param : Value → ℕ → Value
  -- whether `LLVMGetEnumAttributeAtIndex` finds `noreturn` at the function
  pub is_noreturn : Value → Bool
  pub instruction_parent : Value → Block
  pub block_parent : Block → Value
  -- `LLVMGetReturnType` of a function's type
  pub return_type : Value → Ty
  pub is_a_constant : Value → Bool
  pub is_a_constant_int : Value → Bool
  pub is_a_constant_pointer_null : Value → Bool
  pub is_a_global_variable : Value → Bool
  pub is_a_constant_expr : Value → Bool
  pub const_int_zext_value : Value → ℕ
  pub is_global_constant : Value → Bool
  pub get_initializer : Value → Option Value
  pub get_alignment : Value → ℕ
  pub type_of : Value → Ty
  pub type_kind : Ty → TypeKind
  pub int_type_width : Ty → ℕ
  pub element_type : Ty → Ty
  pub count_struct_element_types : Ty → ℕ
  pub struct_type_at : Ty → ℕ → Ty
  pub abi_size : Ty → ℕ
  pub offset_of_element : Ty → ℕ → ℕ
  -- whether `LLVMGetStructName` is not null
  pub is_named_struct : Ty → Bool
  pub is_packed_struct : Ty → Bool
  pub gep_source_element_type : Value → Ty
  pub int8_type : Ty
  pub is_a_phi_node : Value → Bool
  pub incoming_block : Value → ℕ → Block
  pub basic_block_terminator : Block → Value
  pub print_value : Value → String
  -- `file:line` of an instruction with line tables
  pub debug_location : Value → Option String
  pub list_bound : ℕ
  pub nesting : Value → ℕ
  pub type_nesting : Ty → ℕ
