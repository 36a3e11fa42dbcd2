-- ===== src/Compiler/Lower/Examples.antt =====
-- compiler/src/lower on the small module of Compiler/Examples.antt.
use llvm_metal.Base.{
  ◌+◌, ◌≤◌, ◌≡◌, ◌≢◌, refl, true, none, some, [], ◌∷◌, Memᴰ, arith, flat_map, any,
}
use llvm_metal.Compiler.Ir.{
  chain, blocks, block_instructions, functions, instructions, defined, callee,
}
use llvm_metal.Compiler.Verify.{names_slot}
use llvm_metal.Compiler.Examples.{Thing, sample, sample-IsModule}
use llvm_metal.Compiler.Verify.Examples.{quiet}
use llvm_metal.Compiler.Lower.{Launch, types, slots, slot_of, slot_count, maximum, operation}
use llvm_metal.Compiler.Lower.Extend.{Extended}
use llvm_metal.Compiler.Lower.Operations.{arguments, operation-total, slots-le}

-- A launch of one buffer, of things that stand for its values.
abbrev sample_launch : Launch Thing
sample_launch = record {
  buffers = Thing.table ∷ [];
  lengths = Thing.slot;
  status = Thing.slot;
  thread = Thing.call;
  constants = Thing.table_data;
}

slots-le_example : slots sample + 2 ≤ 31
slots-le_example = slots-le sample sample-IsModule quiet

the_kernel : Memᴰ Thing.kernel (functions sample)
unfolding functions chain
the_kernel = Memᴰ.head refl

the_call : Memᴰ Thing.call (instructions sample Thing.kernel)
unfolding instructions blocks block_instructions chain flat_map
the_call = Memᴰ.head refl

one_slot : 1 ≡ slots sample
unfolding slots slot_count slot_of maximum functions instructions blocks block_instructions chain
    flat_map callee names_slot any
one_slot = refl

load_defined : callee sample Thing.call ≡ some Thing.load_op
unfolding callee
load_defined = refl

kernel_defined : defined sample Thing.kernel ≡ true
unfolding defined
kernel_defined = refl

operation-total_example :
    operation sample "llvm_metal.load" (arguments sample Thing.call 2) sample_launch ≢ none
operation-total_example =
    operation-total sample Thing.kernel Thing.call Thing.load_op 2 sample_launch sample-IsModule
      quiet the_kernel kernel_defined the_call refl load_defined (omega arith) one_slot

-- What stands for a replacement of the operation that the sample calls.
abbrev sample_replacement : Extended sample
sample_replacement = record {
  old = Thing.load_op;
  new = Thing.kernel;
  name = "";
  own = 2;
  added = types 1;
  moved = [];
  uses = (Thing.slot, Thing.table) ∷ [];
  seen = sample_launch;
}
