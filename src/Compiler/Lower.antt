-- ===== src/Compiler/Lower.antt =====
-- compiler/src/lower: the count of buffer slots (`slots` of mod.rs) and the launch that every function
-- receives (context.rs). The instructions that `operation` builds are data, `none` is a panic of the
-- compiler (an index out of bounds).
pub mod Slots
pub mod Launches
pub mod Operations
pub mod Extend
pub mod Rewrite
mod Examples
use Prim.Native.String.{String}
use text.Mathlib.Text.{◌==◌ as str_eq, starts_with}
use llvm_metal.Base.{
  ℕ, zero, suc, ◌+◌, ◌%◌, ◌^◌, ◌||◌, Bool, true, false, Option, none, some, List, [], ◌∷◌, ◌++◌,
  length, get_elem?, take, replicate, leb, ltb, flat_map, if◌then◌else◌,
}
use llvm_metal.Compiler.Llvm.{Llvm}
use llvm_metal.Compiler.Ir.{functions, instructions, callee}
use llvm_metal.Compiler.Verify.{names_slot}

-- `max().unwrap_or(0)`
pub maximum : List ℕ → ℕ
maximum [] = 0
maximum (x ∷ xs) = let rest = maximum xs in if ltb rest x then x else rest

-- The type of a parameter of the launch.
pub data Parameter : Type 0 where
  device_pointer word32 thread_pointer : Parameter

-- `types`
unfoldable pub types : ℕ → List Parameter
types buffers =
    replicate (buffers + 2) Parameter.device_pointer
    ++ Parameter.word32 ∷ Parameter.thread_pointer ∷ []

-- `Launch`, in the order of `types`.
pub record Launch (V : Type 0) : Type 0 where
  pub buffers : List V
  pub lengths : V
  pub status : V
  pub thread : V
  pub constants : V

module _ {V : Type 0} where
  pub launch : List V → ℕ → Option (Launch V)
  launch parameters buffers =
      if leb buffers (length parameters)
      then elim (get_elem? parameters buffers) [
        | none ↦ none
        | some lengths ↦ elim (get_elem? parameters (buffers + 1)) [
          | none ↦ none
          | some status ↦ elim (get_elem? parameters (buffers + 2)) [
            | none ↦ none
            | some thread ↦ elim (get_elem? parameters (buffers + 3)) [
              | none ↦ none
              | some constants ↦ some (record {
                buffers = take buffers parameters;
                lengths = lengths;
                status = status;
                thread = thread;
                constants = constants;
              })
            ]
          ]
        ]
      ]
      else none

  -- The arguments that `rewrite_calls` passes to an extended function.
  pub passed_on : List V → Launch V → List V
  passed_on arguments x =
      (arguments ++ x.buffers) ++ x.lengths ∷ x.status ∷ x.thread ∷ x.constants ∷ []

-- An instruction that `operation` builds: a load or store at an element of a base.
pub data Built (V : Type 0) : Type 0 where
  load_word load_byte : V → V → Built V
  store_byte : V → V → V → Built V
  store_one : V → Built V

-- `Outcome`; what is built before the call is replaced or erased comes with it.
pub data Outcome (V : Type 0) : Type 0 where
  keep_call erase_hint : Outcome V
  replace_value : V → Outcome V
  replace_built erase_built : Built V → Outcome V

module _ (l : Llvm) where
  open l use {Value}

  pub slot_of : Value → ℕ
  slot_of argument = l.const_int_zext_value argument % 2 ^ 64

  -- The closure of `filter_map` in `slots`, a list of none or one.
  pub slot_count : Value → List ℕ
  slot_count call =
      if l.is_a_call_inst call
      then elim (callee l call) [
        | none ↦ []
        | some target ↦
            if names_slot (l.value_name target)
            then (slot_of (l.get_operand call 0) + 1) % 2 ^ 64 ∷ []
            else []
      ]
      else []

  pub slots : ℕ
  slots = maximum (flat_map (λ f. flat_map slot_count (instructions l f)) (functions l))

  -- A byte of the buffer that the first argument names.
  pub buffer_element :
      List Value → Launch Value → (Value → Value → Option (Outcome Value)) → Option (Outcome Value)
  buffer_element arguments x built = elim (get_elem? arguments 0) [
    | none ↦ none
    | some slot ↦ elim (get_elem? x.buffers (slot_of slot)) [
      | none ↦ none
      | some base ↦ elim (get_elem? arguments 1) [ none ↦ none | some index ↦ built base index ]
    ]
  ]

  -- The store of the third argument.
  pub stored : List Value → Value → Value → Option (Outcome Value)
  stored arguments base index = elim (get_elem? arguments 2) [
    | none ↦ none
    | some byte ↦ some (Outcome.erase_built (Built.store_byte base index byte))
  ]

  pub operation : String → List Value → Launch Value → Option (Outcome Value)
  operation name arguments x =
      if str_eq "llvm_metal.thread_index" name
      then some (Outcome.replace_value x.thread)
      else if str_eq "llvm_metal.length" name
      then elim (get_elem? arguments 0) [
        | none ↦ none
        | some slot ↦ some (Outcome.replace_built (Built.load_word x.lengths slot))
      ]
      else if str_eq "llvm_metal.load" name
      then buffer_element arguments x
          (λ base index. some (Outcome.replace_built (Built.load_byte base index)))
      else if str_eq "llvm_metal.store" name
      then buffer_element arguments x (stored arguments)
      else if str_eq "llvm_metal.panic" name
      then some (Outcome.erase_built (Built.store_one x.status))
      else if starts_with name "llvm.assume"
          || starts_with name "llvm.lifetime."
          || starts_with name "llvm.experimental.noalias.scope.decl"
      then some Outcome.erase_hint
      else some Outcome.keep_call
