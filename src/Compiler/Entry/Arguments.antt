-- ===== src/Compiler/Entry/Arguments.antt =====
-- The launch that the entry of compiler/src/lower/mod.rs gives the kernel, against the one that `launch` of
-- compiler/src/lower/context.rs takes.
use llvm_metal.Base.{
  ℕ, zero, suc, ◌+◌, ◌≡◌, sym, ◌∙◌, ap, some, List, [], ◌∷◌, ◌++◌, map, range, range_from, length,
  length-append, length-map, length-range, length-replicate, replicate, arith,
}
use mathlib.Core.List.{map-append, append_assoc}
use llvm_metal.Compiler.Lower.{Launch, launch}
use llvm_metal.Compiler.Lower.Launches.{launch-append}
use llvm_metal.Compiler.Emit.{pointer, integer, entry_parameters}
use llvm_metal.Compiler.Emit.Entry.{entry_parameters_lem}
use llvm_metal.Compiler.Entry.{Argument, own_parameter, the_copy, entry_arguments}

range_from-add :
    (first n m : ℕ) → range_from first (n + m) ≡ range_from first n ++ range_from (first + n) m
range_from-add first zero m =
    let e : 0 + m ≡ m = omega arith in
    let f : first ≡ first + 0 = omega arith in
    ap (range_from first) e ∙ ap (λ (k : ℕ). range_from k m) f
range_from-add first (suc n) m =
    let e : suc n + m ≡ suc (n + m) = omega arith in
    let f : suc first + n ≡ first + suc n = omega arith in
    ap (range_from first) e
    ∙ ap (λ (r : List ℕ). first ∷ r)
        (range_from-add (suc first) n m
          ∙ ap (λ (k : ℕ). range_from (suc first) n ++ range_from k m) f)

length-entry_parameters : (buffers : ℕ) → length (entry_parameters buffers) ≡ buffers + 3
length-entry_parameters buffers =
    ap length (entry_parameters_lem buffers)
    ∙ omega (
      arith,
      length-append (replicate (buffers + 2) (pointer 1)) (integer 32 ∷ []),
      length-replicate (buffers + 2) (pointer 1),
    )

-- `launch` of the arguments that the entry passes to the kernel takes buffer i from parameter i, the lengths, the
-- status and the thread from the three behind the buffers, and the copy as the constants.
pub launch-entry_arguments :
    (buffers : ℕ)
    → launch (entry_arguments buffers) buffers
      ≡ some (record {
        buffers = map own_parameter (range buffers);
        lengths = own_parameter buffers;
        status = own_parameter (suc buffers);
        thread = own_parameter (suc (suc buffers));
        constants = the_copy;
      })
unfolding entry_arguments
launch-entry_arguments buffers =
    let x : Launch Argument = record {
      buffers = map own_parameter (range buffers);
      lengths = own_parameter buffers;
      status = own_parameter (suc buffers);
      thread = own_parameter (suc (suc buffers));
      constants = the_copy;
    } in
    let first : 0 + buffers ≡ buffers = omega arith in
    let numbers : range (length (entry_parameters buffers))
        ≡ range buffers ++ (buffers ∷ suc buffers ∷ suc (suc buffers) ∷ []) =
      ap range (length-entry_parameters buffers)
      ∙ range_from-add 0 buffers 3
      ∙ ap (λ (k : ℕ). range buffers ++ range_from k 3) first in
    let shape : entry_arguments buffers
        ≡ x.buffers ++ (x.lengths ∷ x.status ∷ x.thread ∷ x.constants ∷ []) =
      ap (λ (r : List ℕ). map own_parameter r ++ (the_copy ∷ [])) numbers
      ∙ ap (λ (r : List Argument). r ++ (the_copy ∷ []))
          (map-append own_parameter (range buffers) _)
      ∙ append_assoc x.buffers _ _ in
    let count : length x.buffers ≡ buffers =
      length-map own_parameter (range buffers) ∙ length-range buffers in
    ap (λ (r : List Argument). launch r buffers) shape
    ∙ ap (launch (x.buffers ++ (x.lengths ∷ x.status ∷ x.thread ∷ x.constants ∷ []))) (sym count)
    ∙ launch-append x
