-- ===== src/Compiler/Stages.antt =====
-- compiler/src/lib.rs: `program`, the stages from bitcode to a verified module. Modules are LLVM's: `Toolchain` has
-- the calls of inkwell that the stages make, and what the edits of a stage make of a module. A text of an error
-- that the source formats is the constructor with its parts.
use Prim.Native.String.{String}
use llvm_metal.Base.{ℕ, Option, none, some, List, [], ◌∷◌}
use llvm_metal.Compiler.Llvm.{Llvm}
use llvm_metal.Compiler.Verify.{Violation, verify}
use llvm_metal.Compiler.Select.{Edit, keep_reachable}
use llvm_metal.Compiler.Panics.{PanicEdit, rewrite_panics}

-- The texts of `Error::Input`.
pub data Message : Type 0 where
  of_library : String → Message
  no_kernel_named : String → Message

-- What a call of the library returns.
pub data Reply (A : Type 0) : Type 0 where
  done : A → Reply A
  failed : String → Reply A

pub record Toolchain : Type 1 where
  pub Module : Type 0
  pub view : Module → Llvm
  pub create_module : String → Module
  pub parse_bitcode : List ℕ → Reply Module
  -- the module with a member linked in
  pub link_in_module : Module → Module → Reply Module
  -- `CString::new` of `kernel.` and the name
  pub kernel_symbol : String → Reply String
  pub named_function : (m : Module) → String → Option ((view m).Value)
  pub after_panics : (m : Module) → List (PanicEdit ((view m).Value) ((view m).Ty)) → Module
  -- the same pointer, in the module that was edited
  pub kept_value :
      (m : Module) (edits : List (PanicEdit ((view m).Value) ((view m).Ty)))
      → (view m).Value
      → (view (after_panics m edits)).Value
  pub after_selection : (m : Module) → List (Edit (view m)) → Module
  -- `Module::verify`, LLVM's own
  pub check : Module → Option String

-- `Result<Module, Error>`, a search of `keep_reachable` that has not ended, and a use of an erased instruction in
-- `rewrite_panics`.
pub data Program (M : Type 0) : Type 0 where
  accepted : M → Program M
  input : Message → Program M
  refused : List Violation → Program M
  unfinished undefined : Program M

module _ (t : Toolchain) where
  open t use {Module}

  -- The loop that links the crates.
  pub link_all : Module → List (List ℕ) → Reply Module
  link_all m [] = done m
  link_all m (bytes ∷ rest) = elim (t.parse_bitcode bytes) [
    | failed e ↦ failed e
    | done member ↦ elim (t.link_in_module m member) [
      | failed e ↦ failed e
      | done linked ↦ link_all linked rest
    ]
  ]

  -- `keep_reachable` of the module that the edits of `rewrite_panics` have made.
  pub selected :
      ℕ
      → (m : Module) → List (PanicEdit ((t.view m).Value) ((t.view m).Ty))
      → (t.view m).Value
      → Option Module
  selected rounds m edits entry =
      let first = t.after_panics m edits in
      elim (keep_reachable (t.view first) rounds (t.kept_value m edits entry)) [
        | none ↦ none
        | some reached ↦ some (t.after_selection first reached)
      ]

  -- What is left after `verify`.
  pub judged : Module → Program Module
  judged m = elim (t.check m) [
    | some e ↦ input (of_library e)
    | none ↦ elim (verify (t.view m)) [
      | [] ↦ accepted m
      | violation ∷ rest ↦ refused (violation ∷ rest)
    ]
  ]

  pub program : ℕ → List (List ℕ) → String → Program Module
  program rounds bitcode name = elim (link_all (t.create_module name) bitcode) [
    | failed e ↦ input (of_library e)
    | done m ↦ elim (t.kernel_symbol name) [
      | failed e ↦ input (of_library e)
      | done symbol ↦ elim (t.named_function m symbol) [
        | none ↦ input (no_kernel_named name)
        | some entry ↦ elim (rewrite_panics (t.view m)) [
          | none ↦ undefined
          | some edits ↦ elim (selected rounds m edits entry) [
            | none ↦ unfinished
            | some left ↦ judged left
          ]
        ]
      ]
    ]
  ]
