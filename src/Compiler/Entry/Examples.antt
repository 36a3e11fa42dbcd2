-- ===== src/Compiler/Entry/Examples.antt =====
-- The entry of compiler/src/lower/mod.rs for an image of 24 bytes with one address in it.
use llvm_metal.Base.{ℕ, ◌≡◌, some, List, [], ◌∷◌, replicate}
use llvm_metal.Compiler.Lower.{launch}
use llvm_metal.Compiler.Image.{Relocation, Image}
use llvm_metal.Compiler.Examples.{Thing, Shape}
use llvm_metal.Compiler.Materialize.Examples.{Tree, leaf, placed}
use llvm_metal.Compiler.Entry.{own_parameter, the_copy, entry_arguments}
use llvm_metal.Compiler.Entry.Arguments.{launch-entry_arguments}

abbrev stored_tree : Tree → List ℕ
stored_tree (leaf n) = n ∷ replicate 7 0
stored_tree _ = replicate 8 0

abbrev bytes_of_image : List ℕ
bytes_of_image = replicate 24 1

abbrev one : Relocation Thing
one = record { offset = 8; target = Thing.table }

abbrev small_image : Image Thing Shape
small_image = record {
  parts = [];
  offsets = placed;
  relocations = one ∷ [];
  size = 24;
  alignment = 8;
}

launch-entry_arguments_example :
    launch (entry_arguments 1) 1
    ≡ some (record {
      buffers = own_parameter 0 ∷ [];
      lengths = own_parameter 1;
      status = own_parameter 2;
      thread = own_parameter 3;
      constants = the_copy;
    })
launch-entry_arguments_example = launch-entry_arguments 1
