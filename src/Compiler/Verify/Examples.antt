-- ===== src/Compiler/Verify/Examples.antt =====
-- compiler/src/verify.rs accepts the small module of Compiler/Examples.antt.
use llvm_metal.Base.{◌≡◌, refl, some, none, [], any, all, flat_map}
use llvm_metal.Compiler.Llvm.{Llvm}
use llvm_metal.Compiler.Ir.{
  functions, globals, instructions, blocks, block_instructions, operands, defined, callee,
  is_pointer, chain,
}
use llvm_metal.Compiler.Examples.{Thing, sample}
use llvm_metal.Compiler.Verify.{
  verify, wide_within, wide, only_constants_within, addresses_only_constants, call_target, visit,
  scan, search, reaches_itself, bad_slot, broken_call, broken_rule, broken, global_violations,
  instruction_violations, recursion_violations, function_violations, known_name, names_slot,
  is_int_to_ptr, is_get_element_ptr,
}

pub quiet : verify sample ≡ []
unfolding verify wide_within wide only_constants_within addresses_only_constants call_target visit
    scan search reaches_itself bad_slot broken_call broken_rule broken global_violations
    instruction_violations recursion_violations function_violations known_name names_slot
    is_int_to_ptr is_get_element_ptr functions globals instructions blocks block_instructions
    operands defined callee is_pointer chain any all flat_map
quiet = refl

-- The initializer of the global is the byte; no constant leads to itself.
abbrev pub one_global : Llvm
one_global = record sample {
  get_initializer = λ g. elim g [ Thing.table ↦ some Thing.slot | _ ↦ none ];
}

pub one_global-quiet : verify one_global ≡ []
unfolding verify wide_within wide only_constants_within addresses_only_constants call_target visit
    scan search reaches_itself bad_slot broken_call broken_rule broken global_violations
    instruction_violations recursion_violations function_violations known_name names_slot
    is_int_to_ptr is_get_element_ptr functions globals instructions blocks block_instructions
    operands defined callee is_pointer chain any all flat_map
one_global-quiet = refl
