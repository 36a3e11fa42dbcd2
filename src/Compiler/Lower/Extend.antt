-- ===== src/Compiler/Lower/Extend.antt =====
-- compiler/src/lower/context.rs: `extend`. The function that LLVM adds for each old one is a parameter, and the
-- calls that fill it are the record of what was done; `none` is a panic.
pub mod Launched
use mathlib.Core.Option
use Prim.Native.String.{String}
use llvm_metal.Base.{ℕ, ◌+◌, Option, none, some, List, [], ◌∷◌, map, drop, range, length, keep}
use llvm_metal.Compiler.Llvm.{Llvm}
use llvm_metal.Compiler.Ir.{functions, blocks, defined}
use llvm_metal.Compiler.Lower.{Parameter, types, Launch, launch}

module _ (l : Llvm) where
  open l use {Value, Block}

  -- One replaced function: the new one takes the name, the type of the old one with the `added` parameters
  -- behind, its blocks, and its parameters in place of the old ones; the last field is the map's value.
  pub record Extended : Type 0 where
    pub old : Value
    pub new : Value
    pub name : String
    pub own : ℕ
    pub added : List Parameter
    pub moved : List Block
    pub uses : List (Value × Value)
    pub seen : Launch Value

  module _ (new_of : Value → Value) (buffers : ℕ) where
    -- What the calls of LLVM make of an old function, with the launch that the new one sees.
    pub replacement : Value → Launch Value → Extended
    replacement old seen =
        let own = l.count_params old in
        record {
          old = old;
          new = new_of old;
          name = l.value_name old;
          own = own;
          added = types buffers;
          moved = blocks l old;
          uses = map (λ index. (l.get_param old index, l.get_param (new_of old) index)) (range own);
          seen = seen;
        }

    -- The body of the loop.
    pub extended : Value → Option Extended
    extended old =
        let own = l.count_params old in
        let values = map (l.get_param (new_of old)) (range (own + length (types buffers))) in
        Option.map (replacement old) (launch (drop own values) buffers)

    pub extend_all : List Value → Option (List Extended)
    extend_all [] = some []
    extend_all (old ∷ rest) = elim (extended old) [
      | none ↦ none
      | some one ↦ Option.map (λ others. one ∷ others) (extend_all rest)
    ]

    pub extend : Option (List Extended)
    extend = extend_all (keep (defined l) (functions l))
