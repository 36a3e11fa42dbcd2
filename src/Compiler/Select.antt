-- ===== src/Compiler/Select.antt =====
-- compiler/src/select.rs: `keep_reachable`. Its loop runs on fuel; `Reached` shows how much is enough. What it
-- does to the module is a list of calls of LLVM, in order.
pub mod Refers
pub mod Reached
pub mod Deleted
pub mod Examples
use llvm_metal.Base.{
  ℕ, zero, suc, Bool, true, false, not, Option, none, some, List, [], ◌∷◌, ◌++◌, map, flat_map,
  keep, contains, if◌then◌else◌,
}
use mathlib.Core.List.{reverse}
use mathlib.Core.Option
use llvm_metal.Compiler.Llvm.{Llvm}
use llvm_metal.Compiler.Ir.{functions, globals, blocks, instructions, operands}

module _ (l : Llvm) where
  open l use {Value, Block}

  -- What the loop adds to `pending` for a value that is reached for the first time.
  pub references : Value → List Value
  references value =
      if l.is_a_function value
      then flat_map (λ instruction. keep l.is_a_constant (operands l instruction))
          (instructions l value)
      else if l.is_a_global_variable value
      then elim (l.get_initializer value) [ none ↦ [] | some initializer ↦ initializer ∷ [] ]
      else keep l.is_a_constant (operands l value)

  -- The loop, over `reached` and `pending`, whose last value is the first here; none is out of rounds.
  pub walk : ℕ → List Value → List Value → Option (List Value)
  walk rounds reached [] = some reached
  walk zero reached (value ∷ pending) = none
  walk (suc rounds) reached (value ∷ pending) = elim (contains l.value_eq value reached) [
    | true ↦ walk rounds reached pending
    | false ↦ walk rounds (value ∷ reached) (reverse (references value) ++ pending)
  ]

  pub dead : List Value → List Value → List Value
  dead reached values = keep (λ value. not (contains l.value_eq value reached)) values

  pub data Edit : Type 0 where
    erase : Value → Edit
    delete_block : Block → Edit
    clear_initializer delete_function delete_global : Value → Edit

  -- Emptying one dead function.
  pub emptied : Value → List Edit
  emptied function =
      map erase (reverse (instructions l function)) ++ map delete_block (blocks l function)

  pub edits : List Value → List Edit
  edits reached =
      let dead_functions = dead reached (functions l) in
      let dead_globals = dead reached (globals l) in
      flat_map emptied dead_functions
      ++ (map clear_initializer dead_globals
          ++ (map delete_function dead_functions ++ map delete_global dead_globals))

  pub keep_reachable : ℕ → Value → Option (List Edit)
  keep_reachable rounds entry = Option.map edits (walk rounds [] (entry ∷ []))
