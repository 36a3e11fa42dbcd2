-- ===== src/Compiler/Emit/Entry.antt =====
-- `describe` of compiler/src/emit.rs on the entry that compiler/src/lower/mod.rs makes.
use llvm_metal.Base.{
  ℕ, zero, suc, ◌+◌, ◌≡◌, refl, ◌∙◌, ap, some, List, [], ◌∷◌, ◌++◌, map, range, range_from, length,
  length-append, length-replicate, replicate, arith,
}
use llvm_metal.Compiler.Lower.{Parameter, types}
use llvm_metal.Compiler.Emit.{
  EntryType, pointer, integer, described, buffer_items, thread_items, argument, arguments, describe,
  entry_type, popped, entry_parameters,
}

popped-append : {A : Type 0} (xs : List A) (x y : A) → popped (xs ++ (x ∷ y ∷ [])) ≡ xs ++ (x ∷ [])
unfolding popped
popped-append [] x y = refl
popped-append (z ∷ []) x y = refl
popped-append {A} (z ∷ (w ∷ xs)) x y = ap (λ (r : List A). z ∷ r) (popped-append (w ∷ xs) x y)

map-replicate :
    (count : ℕ) (p q : Parameter)
    → map entry_type (replicate count p ++ (q ∷ []))
      ≡ replicate count (entry_type p) ++ (entry_type q ∷ [])
map-replicate zero p q = refl
map-replicate (suc count) p q =
    ap (λ (r : List EntryType). entry_type p ∷ r) (map-replicate count p q)

-- The buffers come first, and the thread's position is last.
pub entry_parameters_lem :
    (buffers : ℕ)
    → entry_parameters buffers ≡ replicate (buffers + 2) (pointer 1) ++ (integer 32 ∷ [])
unfolding entry_parameters types entry_type
entry_parameters_lem buffers =
    ap (λ (r : List Parameter). map entry_type r)
      (popped-append (replicate (buffers + 2) Parameter.device_pointer) Parameter.word32
        Parameter.thread_pointer)
    ∙ map-replicate (buffers + 2) Parameter.device_pointer Parameter.word32

argument_last :
    (index total : ℕ)
    → index + 1 ≡ total
    → argument index total (integer 32) ≡ some (thread_items index)
unfolding argument
argument_last index total e = ground arith

arguments_lem :
    (first count total : ℕ)
    → first + count + 1 ≡ total
    → arguments first total (replicate count (pointer 1) ++ (integer 32 ∷ []))
      ≡ described (map buffer_items (range_from first count) ++ (thread_items (first + count) ∷ []))
unfolding arguments argument
arguments_lem first zero total e =
    let index : first + 0 ≡ first = omega arith in
    let last = argument_last first total (omega (arith, e)) in rw (index, last, arguments) refl
arguments_lem first (suc count) total e =
    let index : first + suc count ≡ suc first + count = omega arith in
    let rest = arguments_lem (suc first) count total (omega (arith, e)) in
    rw (index, rest, arguments) refl

-- For any count of buffers `describe` accepts the entry that `entry` makes: parameter i is the device buffer at
-- location i for each of the kernel's buffers, the lengths and the status, in this order, and the last is the
-- position of the thread.
pub describe_lem :
    (buffers : ℕ)
    → describe (some (entry_parameters buffers))
      ≡ described (map buffer_items (range (buffers + 2)) ++ (thread_items (buffers + 2) ∷ []))
unfolding describe
describe_lem buffers =
    let shape = entry_parameters_lem buffers in
    let devices : List EntryType = replicate (buffers + 2) (pointer 1) in
    let size : 0 + (buffers + 2) + 1 ≡ length (devices ++ (integer 32 ∷ [])) = omega (
      arith,
      length-append devices (integer 32 ∷ []),
      length-replicate (buffers + 2) (pointer 1),
    ) in
    let index : 0 + (buffers + 2) ≡ buffers + 2 = omega arith in
    ap (λ (ps : List EntryType). arguments 0 (length ps) ps) shape
    ∙ arguments_lem 0 (buffers + 2) _ size
    ∙ ap (λ (k : ℕ). described (map buffer_items (range (buffers + 2)) ++ (thread_items k ∷ [])))
        index
