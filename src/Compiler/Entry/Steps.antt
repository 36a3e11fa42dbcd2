-- ===== src/Compiler/Entry/Steps.antt =====
-- What the instructions of the entry do to the thread's copy of the constants. `address_bytes` is how the
-- target stores a pointer.
use llvm_metal.Base.{
  ℕ, suc, ◌+◌, ◌≤◌, refl, Option, none, some, List, [], ◌∷◌, ◌++◌, set, take, drop, replicate,
  length, length-set, arith,
}
use llvm_metal.Kernel.Writes.{IsPatched, IsPatched-cons}
use llvm_metal.Compiler.Llvm.{Llvm}
use llvm_metal.Compiler.Materialize.Meaning.{Meaning, eval}
use llvm_metal.Compiler.Entry.{Step, alloca, copy_image, store_address, call_kernel, return_void}

-- Bytes in place of those from an offset on.
pub put_bytes : List ℕ → ℕ → List ℕ → List ℕ
put_bytes memory offset [] = memory
put_bytes memory offset (b ∷ bs) = put_bytes (set memory offset b) (suc offset) bs

pub put_bytes-IsPatched :
    (memory : List ℕ) (offset : ℕ) (bs : List ℕ)
    → offset + length bs ≤ length memory
    → IsPatched memory offset bs (put_bytes memory offset bs)
unfolding put_bytes
put_bytes-IsPatched memory offset [] h = record {
  same_length = refl;
  inside = refl;
  outside = λ i k. refl;
}
put_bytes-IsPatched memory offset (b ∷ bs) h = IsPatched-cons memory _ offset b bs (omega arith) (
    put_bytes-IsPatched (set memory offset b) (suc offset) bs
      (omega (arith, length-set memory offset b)))

module _ (l : Llvm) (x : Meaning l) (address_bytes : x.Datum → List ℕ) (image : List ℕ) where
  -- One instruction; memory starts as zeros, of which nothing is read.
  unfoldable pub performed : Step l.Value l.Ty → List ℕ → Option (List ℕ)
  performed (alloca size alignment) memory = some (replicate size 0)
  performed (copy_image size) memory = some (take size image ++ drop size memory)
  performed (store_address address offset) memory = elim (eval l x address) [
    | none ↦ none
    | some d ↦ some (put_bytes memory offset (address_bytes d))
  ]
  performed (call_kernel _) memory = some memory
  performed return_void memory = some memory

  unfoldable pub perform : List (Step l.Value l.Ty) → List ℕ → Option (List ℕ)
  perform [] memory = some memory
  perform (step ∷ steps) memory = elim (performed step memory) [
    | none ↦ none
    | some next ↦ perform steps next
  ]
