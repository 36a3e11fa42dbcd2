-- ===== src/Compiler/Examples.antt =====
-- compiler/src/verify.rs run on a small module: a kernel that loads from slot 0, the operation it calls,
-- and a constant table that holds the table's own address.
use llvm_metal.Base.{
  ℕ, zero, suc, ◌*◌, ◌<◌, ◌≡◌, ◌≢◌, refl, ◌↔◌, true, false, none, some, [], Memᴰ, arith,
}
use llvm_metal.Compiler.Llvm.{Llvm, Opcode, TypeKind}
use llvm_metal.Compiler.Ir.{chain, functions, is_pointer}
use llvm_metal.Compiler.Verify.{verify, wide, addresses_only_constants, reaches_itself}
use llvm_metal.Compiler.Verify.Laws.{IsModule}
use llvm_metal.Compiler.Verify.Wide.{IsWide, wide_iff}
use llvm_metal.Compiler.Verify.Constants.{Holds, LeadsToGlobal, addresses_only_constants_iff}
use llvm_metal.Compiler.Verify.Recursion.Rounds.{reaches_itself_iff}
use llvm_metal.Compiler.Verify.Recursion.{CallPath}
use llvm_metal.Compiler.Verify.Accepted.{IsAccepted, verify_iff}

pub data Thing : Type 0 where
  kernel load_op table table_data call slot : Thing

pub data Shape : Type 0 where
  byte address pair : Shape

abbrev pub sample : Llvm
sample = record {
  Value = Thing;
  Ty = Shape;
  Block = Unit;
  Use = Unit;
  first_use = λ v. elim v [ Thing.load_op ↦ some tt | _ ↦ none ];
  next_use = λ u. none;
  user = λ u. Thing.call;
  value_eq = hlevel;
  first_function = some Thing.kernel;
  next_function = λ f. elim f [ Thing.kernel ↦ some Thing.load_op | _ ↦ none ];
  first_global = some Thing.table;
  next_global = λ g. none;
  first_block = λ f. elim f [ Thing.kernel ↦ some tt | _ ↦ none ];
  next_block = λ b. none;
  first_instruction = λ b. some Thing.call;
  next_instruction = λ i. none;
  num_operands = λ v. elim v [ Thing.call ↦ 1 | Thing.table_data ↦ 2 | _ ↦ 0 ];
  get_operand = λ v i. elim v [
    | Thing.call ↦ Thing.slot
    | Thing.table_data ↦ elim i [ zero ↦ Thing.table | suc _ ↦ Thing.slot ]
    | _ ↦ Thing.slot
  ];
  value_name = λ v. elim v [
    | Thing.kernel ↦ "kernel.sample"
    | Thing.load_op ↦ "llvm_metal.load"
    | Thing.table ↦ "table"
    | _ ↦ ""
  ];
  is_declaration = λ f. elim f [ Thing.kernel ↦ false | _ ↦ true ];
  instruction_opcode = λ i. Opcode.other_opcode 45;
  const_opcode = λ c. Opcode.other_opcode 0;
  is_a_call_inst = λ i. elim i [ Thing.call ↦ true | _ ↦ false ];
  called_value = λ i. Thing.load_op;
  is_a_function = λ f. elim f [ Thing.kernel ↦ true | Thing.load_op ↦ true | _ ↦ false ];
  is_noreturn = λ f. elim f [ Thing.load_op ↦ true | _ ↦ false ];
  instruction_parent = λ i. tt;
  block_parent = λ b. Thing.kernel;
  return_type = λ f. Shape.byte;
  num_arg_operands = λ v. 2;
  count_params = λ f. 0;
  get_param = λ f i. Thing.slot;
  is_a_constant =
      λ c. elim c [ Thing.slot ↦ true | Thing.table ↦ true | Thing.table_data ↦ true | _ ↦ false ];
  is_a_constant_int = λ c. elim c [ Thing.slot ↦ true | _ ↦ false ];
  is_a_constant_pointer_null = λ c. false;
  is_a_global_variable = λ g. elim g [ Thing.table ↦ true | _ ↦ false ];
  is_a_constant_expr = λ c. false;
  const_int_zext_value = λ c. 0;
  is_global_constant = λ g. true;
  get_initializer = λ g. elim g [ Thing.table ↦ some Thing.table_data | _ ↦ none ];
  get_alignment = λ g. 8;
  type_of = λ v. elim v [
    | Thing.table_data ↦ Shape.pair
    | Thing.slot ↦ Shape.byte
    | Thing.call ↦ Shape.byte
    | _ ↦ Shape.address
  ];
  type_kind = λ ty. elim ty [
    | Shape.byte ↦ TypeKind.integer
    | Shape.address ↦ TypeKind.pointer
    | Shape.pair ↦ TypeKind.struct
  ];
  int_type_width = λ ty. 8;
  element_type = λ ty. Shape.byte;
  count_struct_element_types = λ ty. 2;
  struct_type_at = λ ty field. elim field [ zero ↦ Shape.address | suc _ ↦ Shape.byte ];
  abi_size = λ ty. 16;
  offset_of_element = λ ty field. 8 * field;
  is_named_struct = λ ty. false;
  is_packed_struct = λ ty. false;
  gep_source_element_type = λ c. Shape.byte;
  int8_type = Shape.byte;
  is_a_phi_node = λ i. false;
  incoming_block = λ i n. tt;
  basic_block_terminator = λ b. Thing.call;
  print_value = λ v. "";
  debug_location = λ i. none;
  list_bound = 4;
  nesting = λ v. elim v [ Thing.table_data ↦ 1 | _ ↦ 0 ];
  type_nesting = λ ty. elim ty [ Shape.pair ↦ 1 | _ ↦ 0 ];
}

sample-function_listed : (f : Thing) → sample.is_a_function f ≡ true → Memᴰ f (functions sample)
unfolding functions chain
sample-function_listed Thing.kernel e = Memᴰ.head refl
sample-function_listed Thing.load_op e = Memᴰ.tail (Memᴰ.head refl)
sample-function_listed Thing.table e = absurd (cc)
sample-function_listed Thing.table_data e = absurd (cc)
sample-function_listed Thing.call e = absurd (cc)
sample-function_listed Thing.slot e = absurd (cc)

sample-struct_nested :
    (ty : Shape) (field : ℕ)
    → sample.type_kind ty ≡ TypeKind.struct
    → field < sample.count_struct_element_types ty
    → sample.type_nesting (sample.struct_type_at ty field) < sample.type_nesting ty
sample-struct_nested Shape.byte field e h = absurd (cc)
sample-struct_nested Shape.address field e h = absurd (cc)
sample-struct_nested Shape.pair zero e h = omega arith
sample-struct_nested Shape.pair (suc field) e h = omega arith

sample-part_nested :
    (c : Thing) (i : ℕ)
    → sample.is_a_constant c ≡ true
    → is_pointer sample (sample.type_of c) ≡ false
    → i < sample.num_operands c
    → (sample.is_a_constant (sample.get_operand c i) ≡ true)
      × (sample.nesting (sample.get_operand c i) < sample.nesting c)
unfolding is_pointer
sample-part_nested Thing.table_data zero e p h = (refl, omega arith)
sample-part_nested Thing.table_data (suc i) e p h = (refl, omega arith)
sample-part_nested Thing.slot i e p h = absurd (omega arith)
sample-part_nested Thing.table i e p h = absurd (omega arith)
sample-part_nested Thing.kernel i e p h = absurd (cc)
sample-part_nested Thing.load_op i e p h = absurd (cc)
sample-part_nested Thing.call i e p h = absurd (cc)

sample-initializer_constant :
    (g c : Thing) → sample.get_initializer g ≡ some c → sample.is_a_constant c ≡ true
sample-initializer_constant Thing.table c e = cc
sample-initializer_constant Thing.kernel c e = absurd (cc)
sample-initializer_constant Thing.load_op c e = absurd (cc)
sample-initializer_constant Thing.table_data c e = absurd (cc)
sample-initializer_constant Thing.call c e = absurd (cc)
sample-initializer_constant Thing.slot c e = absurd (cc)

sample-declaration_empty :
    (f : Thing) → sample.is_declaration f ≡ true → sample.first_block f ≡ none
sample-declaration_empty Thing.kernel e = absurd (cc)
sample-declaration_empty Thing.load_op e = refl
sample-declaration_empty Thing.table e = refl
sample-declaration_empty Thing.table_data e = refl
sample-declaration_empty Thing.call e = refl
sample-declaration_empty Thing.slot e = refl

no_array : (ty : Shape) → sample.type_kind ty ≢ TypeKind.array
no_array Shape.byte e = cc
no_array Shape.address e = cc
no_array Shape.pair e = cc

no_vector : (ty : Shape) → sample.type_kind ty ≢ TypeKind.vector
no_vector Shape.byte e = cc
no_vector Shape.address e = cc
no_vector Shape.pair e = cc

pub sample-IsModule : IsModule sample
sample-IsModule = record {
  function_listed = sample-function_listed;
  declaration_empty = sample-declaration_empty;
  array_nested = λ ty e. absurd (no_array ty e);
  vector_nested = λ ty e. absurd (no_vector ty e);
  struct_nested = sample-struct_nested;
  part_nested = sample-part_nested;
  base_nested = λ c e p. absurd (cc);
  initializer_constant = sample-initializer_constant;
}

verify_iff_example : (verify sample ≡ []) ↔ IsAccepted sample
verify_iff_example = verify_iff sample sample-IsModule

reaches_itself_iff_example :
    (reaches_itself sample Thing.kernel ≡ true) ↔ CallPath sample Thing.kernel Thing.kernel
reaches_itself_iff_example = reaches_itself_iff sample sample-IsModule Thing.kernel

wide_iff_example : (wide sample Shape.pair ≡ true) ↔ IsWide sample Shape.pair
wide_iff_example = wide_iff sample sample-IsModule Shape.pair

addresses_only_constants_iff_example :
    (addresses_only_constants sample Thing.table_data ≡ true)
    ↔ ((a : Thing) → Holds sample Thing.table_data a → LeadsToGlobal sample a)
addresses_only_constants_iff_example =
    addresses_only_constants_iff sample sample-IsModule Thing.table_data refl
