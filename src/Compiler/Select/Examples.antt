-- ===== src/Compiler/Select/Examples.antt =====
-- compiler/src/select.rs on the module of Compiler/Examples.antt.
use llvm_metal.Base.{suc, ◌≡◌, refl, ◌↔◌, some, List, [], ◌∷◌, ◌++◌, Memᴰ}
use llvm_metal.Compiler.Examples.{Thing, sample}
use llvm_metal.Compiler.Ir.{functions, globals}
use llvm_metal.Compiler.Select.{Edit, clear_initializer, keep_reachable}
use llvm_metal.Compiler.Select.Reached.{IsReferred, cost}
use llvm_metal.Compiler.Select.Deleted.{
  deleted_functions, deleted_globals, IsEmptying, IsEmptied, keep_reachable_lem,
}

abbrev pub every : List Thing
every = Thing.kernel ∷ Thing.load_op ∷ Thing.table ∷ Thing.table_data ∷ Thing.call ∷ Thing.slot ∷ []

pub every-Memᴰ : (v : Thing) → Memᴰ v every
every-Memᴰ Thing.kernel = Memᴰ.head refl
every-Memᴰ Thing.load_op = Memᴰ.tail (Memᴰ.head refl)
every-Memᴰ Thing.table = Memᴰ.tail (Memᴰ.tail (Memᴰ.head refl))
every-Memᴰ Thing.table_data = Memᴰ.tail (Memᴰ.tail (Memᴰ.tail (Memᴰ.head refl)))
every-Memᴰ Thing.call = Memᴰ.tail (Memᴰ.tail (Memᴰ.tail (Memᴰ.tail (Memᴰ.head refl))))
every-Memᴰ Thing.slot = Memᴰ.tail (Memᴰ.tail (Memᴰ.tail (Memᴰ.tail (Memᴰ.tail (Memᴰ.head refl)))))

keep_reachable_lem_example :
    (es : List (Edit sample)) × (keep_reachable sample (suc (cost sample [] every)) Thing.kernel
      ≡ some es)
    × ((f : Thing)
        → Memᴰ f (deleted_functions sample es)
          ↔ (Memᴰ f (functions sample) × (¬ IsReferred sample Thing.kernel f)))
    × ((g : Thing)
        → Memᴰ g (deleted_globals sample es)
          ↔ (Memᴰ g (globals sample) × (¬ IsReferred sample Thing.kernel g)))
    × ((first rest : List (Edit sample)) × (es ≡ first ++ rest)
        × IsEmptying sample first
        × ((f : Thing) → Memᴰ f (deleted_functions sample es) → IsEmptied sample first f)
        × ((g : Thing) → Memᴰ g (deleted_globals sample es) → Memᴰ (clear_initializer g) first)
        × (deleted_functions sample rest ≡ deleted_functions sample es)
        × (deleted_globals sample rest ≡ deleted_globals sample es))
keep_reachable_lem_example =
    keep_reachable_lem sample Thing.kernel every (λ u w m r. every-Memᴰ w) (every-Memᴰ Thing.kernel)
