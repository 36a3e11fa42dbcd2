-- ===== src/Compiler/Lower/Rewrite.antt =====
-- compiler/src/lower/context.rs: `rewrite_calls`, of the module after `extend`: the instructions of a new function
-- are those of the blocks that moved into it, and an operand that was a parameter of an old function is now the
-- parameter of the new one. The result of a call that was replaced goes by the call's own name. The map of the
-- source has no order; here it is that of the functions.
pub mod Passed
use mathlib.Core.Option
use llvm_metal.Base.{
  Bool, true, false, Option, none, some, List, [], ◌∷◌, ◌++◌, map, range, keep, flat_map,
  if◌then◌else◌,
}
use llvm_metal.Compiler.Llvm.{Llvm}
use llvm_metal.Compiler.Ir.{block_instructions, callee}
use llvm_metal.Compiler.Lower.{Launch, Outcome, passed_on, operation}
use llvm_metal.Compiler.Lower.Extend.{Extended}

-- What becomes of a call: a call of the extended function, or what `operation` decides.
pub data Change (V : Type 0) : Type 0 where
  call_instead : V → List V → Change V
  operation_instead : Outcome V → Change V

-- `Outcome::Keep`
pub keeps : {V : Type 0} → Change V → Bool
keeps (call_instead extended all) = false
keeps (operation_instead Outcome.keep_call) = true
keeps (operation_instead _) = false

module _ (l : Llvm) where
  open l use {Value}

  -- `replaced.get(&target)`
  unfoldable pub replacement_of : List (Extended l) → Value → Option (Extended l)
  replacement_of [] target = none
  replacement_of (e ∷ es) target =
      let later = replacement_of es target in
      elim (l.value_eq e.old target) [ yes _ ↦ some e | no _ ↦ later ]

  -- What a value has become in uses that were replaced, the first of them first.
  pub used_as : List (Value × Value) → Value → Value
  used_as [] value = value
  used_as ((old, new) ∷ uses) value =
      let later = used_as uses value in elim (l.value_eq old value) [ yes _ ↦ new | no _ ↦ later ]

  pub call_arguments : List (Extended l) → Value → List Value
  call_arguments replaced call =
      map (λ index. used_as (flat_map (λ e. e.uses) replaced) (l.get_operand call index))
        (range (l.num_arg_operands call))

  -- The instructions of the new function.
  pub moved_instructions : Extended l → List Value
  moved_instructions e = flat_map (block_instructions l) e.moved

  -- `outcome`; a call that names no function panics.
  pub change : List (Extended l) → Launch Value → Value → Option (Change Value)
  change replaced launch call = elim (callee l call) [
    | none ↦ none
    | some target ↦ elim (replacement_of replaced target) [
      | some e ↦ some (call_instead e.new (passed_on (call_arguments replaced call) launch))
      | none ↦
          Option.map operation_instead
            (operation l (l.value_name target) (call_arguments replaced call) launch)
    ]
  ]

  -- The inner loop, over the calls of a function.
  pub rewrite_body :
      List (Extended l) → Launch Value → List Value → Option (List (Value × Change Value))
  rewrite_body replaced launch [] = some []
  rewrite_body replaced launch (call ∷ calls) =
      let rest = rewrite_body replaced launch calls in
      elim (change replaced launch call) [
        | none ↦ none
        | some to ↦ if keeps to then rest else Option.map (λ others. (call, to) ∷ others) rest
      ]

  -- The outer loop.
  pub rewrite_each : List (Extended l) → List (Extended l) → Option (List (Value × Change Value))
  rewrite_each replaced [] = some []
  rewrite_each replaced (e ∷ es) =
      let rest = rewrite_each replaced es in
      elim (rewrite_body replaced e.seen (keep l.is_a_call_inst (moved_instructions e))) [
        | none ↦ none
        | some here ↦ Option.map (λ others. here ++ others) rest
      ]

  pub rewrite_calls : List (Extended l) → Option (List (Value × Change Value))
  rewrite_calls replaced = rewrite_each replaced replaced
