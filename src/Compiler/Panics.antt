-- ===== src/Compiler/Panics.antt =====
-- compiler/src/select.rs: `rewrite_panics`, and `erase` of compiler/src/ir.rs. What it does to the module is a list of
-- calls of LLVM, in order; the calls that are already replaced and the instructions that are already erased are
-- handed on. The panic function that it adds first is declared and is no function of the list. `none` is a use of
-- an instruction that was erased.
pub mod Calls
pub mod Rewritten
mod Examples
use llvm_metal.Base.{
  Bool, true, false, not, ◌&&◌, Option, none, some, List, [], ◌∷◌, ◌++◌, flat_map, keep, contains,
  if◌then◌else◌,
}
use llvm_metal.Compiler.Llvm.{Llvm, TypeKind}
use llvm_metal.Compiler.Ir.{chain, functions, users, defined, callee}

pub data PanicEdit (V T : Type 0) : Type 0 where
  -- a call of the panic function, before an instruction
  build_panic : V → PanicEdit V T
  -- a return of nothing or of zero, before an instruction
  build_return_void : V → PanicEdit V T
  build_return_null : V → T → PanicEdit V T
  -- `erase`, with the poison of a result that is not void
  poison : V → T → PanicEdit V T
  erase_instruction : V → PanicEdit V T
  -- `erase` of the call and the return that were built before an instruction
  erase_built : V → PanicEdit V T

module _ (l : Llvm) where
  open l use {Value, Ty}

  pub is_void : Ty → Bool
  is_void ty = elim (l.type_kind ty) [ TypeKind.void ↦ true | _ ↦ false ]

  -- `erase`
  pub erase : Value → List (PanicEdit Value Ty)
  erase instruction =
      let last = erase_instruction instruction ∷ [] in
      if is_void (l.type_of instruction)
      then last
      else poison instruction (l.type_of instruction) ∷ last

  -- The instructions from a call to the end of its block.
  pub tail_of : Value → List Value
  tail_of call = chain l.list_bound (some call) l.next_instruction

  -- `==` of pointers
  pub is_same : Value → Value → Bool
  is_same a b = elim (l.value_eq a b) [ yes _ ↦ true | no _ ↦ false ]

  -- The test of the filter: a call whose target is the function.
  pub calls_it : Value → Value → Bool
  calls_it function user =
      l.is_a_call_inst user
      && (elim (callee l user) [ none ↦ false | some target ↦ is_same target function ])

  -- An undefined function that never returns.
  pub panics : Value → Bool
  panics function = not (defined l function) && l.is_noreturn function

  -- The calls that are replaced, and the instructions that are erased.
  pub record Progress : Type 0 where
    pub replaced : List Value
    pub erased : List Value

  -- The instructions of a tail that are left: in front of a call that was replaced stand what was built for it,
  -- and nothing after.
  pub alive : List Value → List Value → List Value
  alive replaced [] = []
  alive replaced (i ∷ is) =
      let rest = alive replaced is in if contains l.value_eq i replaced then [] else i ∷ rest

  -- What was built before the first call of a tail that was replaced.
  pub built_in : List Value → List Value → List (PanicEdit Value Ty)
  built_in replaced [] = []
  built_in replaced (i ∷ is) =
      let rest = built_in replaced is in
      if contains l.value_eq i replaced then erase_built i ∷ [] else rest

  -- The body of the loop over calls.
  pub panic_edits : List Value → Value → List (PanicEdit Value Ty)
  panic_edits replaced call =
      let returned = l.return_type (l.block_parent (l.instruction_parent call)) in
      build_panic call
      ∷ (if is_void returned then build_return_void call else build_return_null call returned)
      ∷ (flat_map erase (alive replaced (tail_of call)) ++ built_in replaced (tail_of call))

  -- The loop over the calls of one function, which were collected before.
  pub replace_calls : Progress → List Value → Option (List (PanicEdit Value Ty) × Progress)
  replace_calls progress [] = some ([], progress)
  replace_calls progress (call ∷ calls) =
      let next : Progress = record {
        replaced = call ∷ progress.replaced;
        erased = alive progress.replaced (tail_of call) ++ progress.erased;
      } in
      let rest = replace_calls next calls in
      if contains l.value_eq call progress.erased then none else elim rest [
        | none ↦ none
        | some (edits, last) ↦ some (panic_edits progress.replaced call ++ edits, last)
      ]

  -- The users of a function that call it and are not erased.
  pub panic_calls : Progress → Value → List Value
  panic_calls progress function =
      keep (λ user. calls_it function user && not (contains l.value_eq user progress.erased))
        (users l function)

  -- The loop over the functions.
  pub replace_all : Progress → List Value → Option (List (PanicEdit Value Ty))
  replace_all progress [] = some []
  replace_all progress (function ∷ functions) =
      elim (replace_calls progress (panic_calls progress function)) [
        | none ↦ none
        | some (edits, next) ↦ elim (replace_all next functions) [
          | none ↦ none
          | some later ↦ some (edits ++ later)
        ]
      ]

  pub rewrite_panics : Option (List (PanicEdit Value Ty))
  rewrite_panics = replace_all (record { replaced = []; erased = [] }) (keep panics (functions l))
