-- ===== src/Compiler/Emit/Examples.antt =====
-- The description of the entry of a kernel with two buffers.
use llvm_metal.Base.{◌+◌, ◌≡◌, some, [], ◌∷◌, ◌++◌, map, range}
use llvm_metal.Compiler.Emit.{described, describe, buffer_items, thread_items, entry_parameters}
use llvm_metal.Compiler.Emit.Entry.{describe_lem}

describe_lem_example :
    describe (some (entry_parameters 2))
    ≡ described (map buffer_items (range (2 + 2)) ++ (thread_items (2 + 2) ∷ []))
describe_lem_example = describe_lem 2
