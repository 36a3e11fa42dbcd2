-- ===== src/Compiler/Lower/Launches.antt =====
-- The launch that compiler/src/lower/context.rs passes along a call is the one the callee receives.
use llvm_metal.Base.{
  ℕ, suc, ◌+◌, ◌≡◌, ◌∙◌, ap, some, List, [], ◌∷◌, ◌++◌, arith, length, length-append,
  length-replicate, replicate, drop, take-append, drop-append, get_elem?,
}
use mathlib.Core.List.{append_assoc}
use llvm_metal.Compiler.Lower.{Parameter, Launch, launch, passed_on, types}

module _ {V : Type 0} where
  -- The elements of a list behind a prefix.
  get_elem?-append :
      (xs ys : List V) (i : ℕ) → get_elem? (xs ++ ys) (length xs + i) ≡ get_elem? ys i
  get_elem?-append [] ys i = let p : 0 + i ≡ i = omega arith in ap (λ (j : ℕ). get_elem? ys j) p
  get_elem?-append (x ∷ xs) ys i =
      let p : suc (length xs) + i ≡ suc (length xs + i) = omega arith in
      ap (λ (j : ℕ). get_elem? (x ∷ (xs ++ ys)) j) p ∙ get_elem?-append xs ys i

  -- `launch` reads back the values that follow the buffers.
  pub launch-append :
      (x : Launch V)
      → launch (x.buffers ++ x.lengths ∷ x.status ∷ x.thread ∷ x.constants ∷ []) (length x.buffers)
        ≡ some x
  unfolding launch
  launch-append x =
      let rest = x.lengths ∷ x.status ∷ x.thread ∷ x.constants ∷ [] in
      let at = get_elem?-append x.buffers rest in
      let first : get_elem? (x.buffers ++ rest) (length x.buffers) ≡ some x.lengths =
        ap (λ (j : ℕ). get_elem? (x.buffers ++ rest) j) (omega arith) ∙ at 0 in
      ground
        (arith, first, at 1, at 2, at 3, take-append x.buffers rest, length-append x.buffers rest)

  -- For a callee with as many parameters of its own as the call has arguments, the launch it takes
  -- from the values behind them is the caller's, and there is a value for each of the launch's types.
  pub launch-passed_on :
      (arguments : List V) (x : Launch V)
      → (launch (drop (length arguments) (passed_on arguments x)) (length x.buffers) ≡ some x)
        × (length (passed_on arguments x) ≡ length arguments + length (types (length x.buffers)))
  unfolding passed_on types
  launch-passed_on arguments x =
      let rest = x.lengths ∷ x.status ∷ x.thread ∷ x.constants ∷ [] in
      (
        rw (append_assoc arguments x.buffers rest, drop-append arguments (x.buffers ++ rest))
            (launch-append x),
        omega (
          arith,
          length-append (arguments ++ x.buffers) rest,
          length-append arguments x.buffers,
          length-append (replicate (length x.buffers + 2) Parameter.device_pointer)
              (Parameter.word32 ∷ Parameter.thread_pointer ∷ []),
          length-replicate (length x.buffers + 2) Parameter.device_pointer,
        ),
      )
