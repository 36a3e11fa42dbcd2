-- ===== src/Compiler/Image/Examples.antt =====
-- The image of a module like the one of Compiler/Examples.antt, with one global of 16 bytes.
use llvm_metal.Base.{ℕ, ◌<◌, ◌≡◌, ◌^◌, zero, suc, refl, true, false, some, arith, any}
use llvm_metal.Compiler.Ir.{chain, globals, functions, operands, is_pointer}
use llvm_metal.Compiler.Constants.{refers_within}
use llvm_metal.Compiler.Verify.Examples.{one_global, one_global-quiet}
use llvm_metal.Compiler.Verify.Laws.{IsModule}
use llvm_metal.Compiler.Examples.{Thing, Shape, sample-IsModule}
use llvm_metal.Compiler.Materialize.{refers}
use llvm_metal.Compiler.Materialize.Rebuilt.{Cleared}
use llvm_metal.Compiler.Image.{Image, align_of, image}
use llvm_metal.Compiler.Image.Placed.{IsPlaced, room, image_lem}

one_global-initializer : (g c : Thing) → one_global.get_initializer g ≡ some c → Thing.slot ≡ c
one_global-initializer Thing.table c e = cc
one_global-initializer Thing.kernel c e = absurd (cc)
one_global-initializer Thing.load_op c e = absurd (cc)
one_global-initializer Thing.table_data c e = absurd (cc)
one_global-initializer Thing.call c e = absurd (cc)
one_global-initializer Thing.slot c e = absurd (cc)

one_global-IsModule : IsModule one_global
unfolding functions is_pointer
one_global-IsModule = record {
  function_listed = sample-IsModule.function_listed;
  declaration_empty = sample-IsModule.declaration_empty;
  array_nested = sample-IsModule.array_nested;
  vector_nested = sample-IsModule.vector_nested;
  struct_nested = sample-IsModule.struct_nested;
  part_nested = sample-IsModule.part_nested;
  base_nested = sample-IsModule.base_nested;
  initializer_constant = λ g c e. rw (← one_global-initializer g c e) refl;
}

one_global-operand_nested :
    (c : Thing) (i : ℕ)
    → one_global.is_a_constant c ≡ true
    → one_global.is_a_function c ≡ false
    → i < one_global.num_operands c
    → (one_global.is_a_constant (one_global.get_operand c i) ≡ true)
      × (one_global.nesting (one_global.get_operand c i) < one_global.nesting c)
one_global-operand_nested Thing.table_data zero k f h = (refl, omega arith)
one_global-operand_nested Thing.table_data (suc i) k f h = (refl, omega arith)
one_global-operand_nested Thing.table i k f h = absurd (omega arith)
one_global-operand_nested Thing.slot i k f h = absurd (omega arith)
one_global-operand_nested Thing.kernel i k f h = absurd (cc)
one_global-operand_nested Thing.load_op i k f h = absurd (cc)
one_global-operand_nested Thing.call i k f h = absurd (cc)

byte-plain : refers one_global Thing.slot ≡ false
unfolding refers refers_within operands any
byte-plain = refl

one_global-fits : room one_global (globals one_global) < 2 ^ 64
unfolding globals chain align_of
one_global-fits = omega arith

image_lem_example :
    (i : Image Thing Shape) × (image one_global 1 ≡ some i)
    × IsPlaced one_global 0 (globals one_global) i.offsets i.size
image_lem_example =
    image_lem one_global 1 one_global-IsModule one_global-quiet
      (record { operand_nested = one_global-operand_nested })
      (λ g c m e. rw (← one_global-initializer g c e) (Cleared.whole byte-plain, omega arith))
      one_global-fits
