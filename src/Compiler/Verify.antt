-- ===== src/Compiler/Verify.antt =====
-- compiler/src/verify.rs: what a kernel may contain. The children prove it against the rules.
pub mod Laws
pub mod Examples
pub mod Recursion
pub mod Wide
pub mod Constants
pub mod Accepted
use Prim.Native.String.{String}
use text.Mathlib.Text.{◌==◌ as str_eq, starts_with}
use llvm_metal.Base.{
  ℕ, zero, suc, Bool, true, false, not, ◌&&◌, ◌||◌, Option, none, some, List, [], ◌∷◌, ◌++◌, map,
  flat_map, any, all, contains, range, ltb, leb, if◌then◌else◌,
}
use mathlib.Core.Option
use mathlib.Core.Option.{get_or}
use llvm_metal.Compiler.Llvm.{Llvm, Opcode, TypeKind}
use llvm_metal.Compiler.Ir.{functions, globals, instructions, operands, defined, callee, is_pointer}

pub data Rule : Type 0 where
  known_function constant_slot direct_call no_recursion : Rule
  native_integer no_integer_to_pointer constant_data : Rule

pub record Violation : Type 0 where
  pub rule : Rule
  pub function : String
  pub location : Option String
  pub detail : String

-- Buffer slots a kernel may name.
abbrev pub slots : ℕ
slots = 29

abbrev pub operations : List String
operations =
    "llvm_metal.thread_index" ∷ "llvm_metal.length" ∷ "llvm_metal.load" ∷ "llvm_metal.store"
    ∷ "llvm_metal.panic" ∷ []

abbrev pub intrinsics : List String
intrinsics =
    "llvm.experimental.noalias.scope.decl" ∷ "llvm.memcpy." ∷ "llvm.memset." ∷ "llvm.memmove."
    ∷ "llvm.lifetime." ∷ "llvm.assume" ∷ "llvm.bswap." ∷ "llvm.ctlz." ∷ "llvm.cttz." ∷ "llvm.fshl."
    ∷ "llvm.fshr." ∷ "llvm.umin." ∷ "llvm.umax." ∷ "llvm.smin." ∷ "llvm.smax." ∷ "llvm.abs."
    ∷ "llvm.dbg." ∷ []

-- The device operations whose first argument is a buffer slot.
abbrev pub slot_operations : List String
slot_operations = "llvm_metal.length" ∷ "llvm_metal.load" ∷ "llvm_metal.store" ∷ []

unfoldable pub known_name : String → Bool
known_name name =
    any (λ operation. str_eq operation name) operations
    || any (λ prefix. starts_with name prefix) intrinsics

unfoldable pub names_slot : String → Bool
names_slot name = any (λ operation. str_eq operation name) slot_operations

pub is_int_to_ptr : Opcode → Bool
is_int_to_ptr Opcode.int_to_ptr = true
is_int_to_ptr _ = false

pub is_get_element_ptr : Opcode → Bool
is_get_element_ptr Opcode.get_element_ptr = true
is_get_element_ptr _ = false

module _ (l : Llvm) where
  open l use {Value, Ty}

  -- `wide`, to a nesting of the type.
  pub wide_within : ℕ → Ty → Bool
  wide_within zero ty = false
  wide_within (suc depth) ty = elim (l.type_kind ty) [
    | TypeKind.integer ↦ ltb 64 (l.int_type_width ty)
    | TypeKind.array ↦ wide_within depth (l.element_type ty)
    | TypeKind.vector ↦ wide_within depth (l.element_type ty)
    | TypeKind.struct ↦
        any (λ field. wide_within depth (l.struct_type_at ty field))
          (range (l.count_struct_element_types ty))
    | _ ↦ false
  ]

  pub wide : Ty → Bool
  wide ty = wide_within (suc (l.type_nesting ty)) ty

  -- `addresses_only_constants`, to a nesting of the constant.
  pub only_constants_within : ℕ → Value → Bool
  only_constants_within zero constant = false
  only_constants_within (suc depth) constant = elim (is_pointer l (l.type_of constant)) [
    | false ↦ all (only_constants_within depth) (operands l constant)
    | true ↦
        l.is_a_constant_pointer_null constant
        || l.is_a_global_variable constant
        || l.is_a_constant_expr constant
          && is_get_element_ptr (l.const_opcode constant)
          && only_constants_within depth (l.get_operand constant 0)
  ]

  pub addresses_only_constants : Value → Bool
  addresses_only_constants constant = only_constants_within (suc (l.nesting constant)) constant

  -- The function that an instruction calls, if it is a call that names one.
  unfoldable pub call_target : Value → Option Value
  call_target instruction = if l.is_a_call_inst instruction then callee l instruction else none

  -- `seen` and `pending` of `reaches_itself`, the last pushed first.
  pub record Search : Type 0 where
    pub seen : List Value
    pub pending : List Value

  pub visit : Value → Search → Search
  visit target s =
      if defined l target && not (contains l.value_eq target s.seen)
      then record { seen = target ∷ s.seen; pending = target ∷ s.pending }
      else s

  -- The inner loop; `none` is its `return true`.
  pub scan : Value → List Value → Search → Option Search
  scan function [] s = some s
  scan function (instruction ∷ rest) s = elim (call_target instruction) [
    | none ↦ scan function rest s
    | some target ↦ elim (l.value_eq target function) [
      | yes _ ↦ none
      | no _ ↦ scan function rest (visit target s)
    ]
  ]

  -- The outer loop; `none` is running out of rounds.
  pub search : ℕ → Value → Search → Option Bool
  search zero function s = elim s.pending [ [] ↦ some false | _ ∷ _ ↦ none ]
  search (suc left) function s = elim s.pending [
    | [] ↦ some false
    | caller ∷ rest ↦ elim (scan function (instructions l caller) (record s { pending = rest })) [
      | none ↦ some true
      | some s' ↦ search left function s'
    ]
  ]

  abbrev pub start : Value → Search
  start function = record { seen = []; pending = function ∷ [] }

  -- A round takes a function that no earlier round took, so a round for each function is enough.
  pub reaches_itself : Value → Bool
  reaches_itself function = get_or (search (suc l.list_bound) function (start function)) false

  pub bad_slot : Value → Bool
  bad_slot call =
      let slot = l.get_operand call 0 in
      not (l.is_a_constant_int slot) || leb slots (l.const_int_zext_value slot)

  pub broken_call : Value → Option Rule
  unfolding bad_slot
  broken_call call = elim (callee l call) [
    | none ↦ some direct_call
    | some target ↦
        if names_slot (l.value_name target) && bad_slot call then some constant_slot else none
  ]

  -- The rule of `broken`; the detail is the printed instruction each time.
  pub broken_rule : Value → Option Rule
  unfolding broken_call
  broken_rule instruction =
      if is_int_to_ptr (l.instruction_opcode instruction)
      then some no_integer_to_pointer
      else if any wide (l.type_of instruction ∷ map l.type_of (operands l instruction))
      then some native_integer
      else if l.is_a_call_inst instruction
      then broken_call instruction
      else none

  pub broken : Value → Option (Rule × String)
  unfolding broken_rule
  broken instruction =
      Option.map (λ rule. (rule, l.print_value instruction)) (broken_rule instruction)

  pub global_violations : Value → List Violation
  global_violations global =
      let refused : Violation = record {
        rule = constant_data;
        function = "";
        location = none;
        detail = l.value_name global;
      } in
      elim (l.get_initializer global) [
        | none ↦ refused ∷ []
        | some initializer ↦
            if not (l.is_global_constant global) || not (addresses_only_constants initializer)
            then refused ∷ []
            else []
      ]

  pub instruction_violations : String → Value → List Violation
  unfolding broken
  instruction_violations name instruction = elim (broken instruction) [
    | none ↦ []
    | some (broken_one, printed) ↦
        record {
          rule = broken_one;
          function = name;
          location = l.debug_location instruction;
          detail = printed;
        }
        ∷ []
  ]

  pub recursion_violations : Value → List Violation
  recursion_violations function =
      if reaches_itself function
      then record {
        rule = no_recursion;
        function = l.value_name function;
        location = none;
        detail = "";
      }
        ∷ []
      else []

  pub function_violations : Value → List Violation
  unfolding recursion_violations
  function_violations function =
      let name = l.value_name function in
      if defined l function
      then recursion_violations function
        ++ flat_map (instruction_violations name) (instructions l function)
      else if known_name name
      then []
      else record { rule = known_function; function = name; location = none; detail = "undefined" }
        ∷ []

  pub verify : List Violation
  verify = flat_map global_violations (globals l) ++ flat_map function_violations (functions l)
