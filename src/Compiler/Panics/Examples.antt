-- ===== src/Compiler/Panics/Examples.antt =====
-- `rewrite_panics` of compiler/src/select.rs on the small module of Compiler/Examples.antt, in which the operation
-- that the kernel calls never returns.
use llvm_metal.Base.{List, [], ◌∷◌, arith, ◌≡◌, ◌↔◌, ◌∙◌, refl, sym, true, some, Memᴰ, Distinct}
use llvm_metal.Compiler.Ir.{functions, users, callee, chain}
use llvm_metal.Compiler.Examples.{Thing, Shape, sample}
use llvm_metal.Compiler.Panics.{PanicEdit, build_panic, erase_instruction, rewrite_panics}
use llvm_metal.Compiler.Panics.Calls.{IsPanicCall, From, IsListed}
use llvm_metal.Compiler.Panics.Rewritten.{rewrite_panics_lem}

sample-used :
    (instruction f : Thing)
    → sample.is_a_call_inst instruction ≡ true
    → callee sample instruction ≡ some f
    → Memᴰ instruction (users sample f)
unfolding users chain callee
sample-used Thing.call f c e = let same : Thing.load_op ≡ f = cc in rw (← same) (Memᴰ.head refl)
sample-used Thing.kernel f c e = absurd (cc)
sample-used Thing.load_op f c e = absurd (cc)
sample-used Thing.table f c e = absurd (cc)
sample-used Thing.table_data f c e = absurd (cc)
sample-used Thing.slot f c e = absurd (cc)

sample-listed : IsListed sample
sample-listed first = (first ∷ [], (refl, refl), omega arith)

sample-called : (c : Thing) → sample.is_a_call_inst c ≡ true → Thing.call ≡ c
sample-called Thing.call e = refl
sample-called Thing.kernel e = absurd (cc)
sample-called Thing.load_op e = absurd (cc)
sample-called Thing.table e = absurd (cc)
sample-called Thing.table_data e = absurd (cc)
sample-called Thing.slot e = absurd (cc)

sample-functions : Distinct (functions sample)
unfolding functions chain
sample-functions =
    (λ m. elim m [ Memᴰ.head e ↦ cc | Memᴰ.tail n ↦ elim n [ ] ], (λ m. elim m [ ], tt))

sample-once : (f : Thing) → Distinct (users sample f)
unfolding users chain
sample-once Thing.load_op = (λ m. elim m [ ], tt)
sample-once Thing.kernel = tt
sample-once Thing.call = tt
sample-once Thing.table = tt
sample-once Thing.table_data = tt
sample-once Thing.slot = tt

rewrite_panics_lem_example :
    (edits : List (PanicEdit Thing Shape)) × (rewrite_panics sample ≡ some edits)
    × ((call : Thing) → Memᴰ (build_panic call) edits ↔ IsPanicCall sample call)
    × ((i : Thing)
        → Memᴰ (erase_instruction i) edits
          ↔ ((call : Thing) × IsPanicCall sample call × From sample call i))
rewrite_panics_lem_example =
    rewrite_panics_lem sample sample-used sample-listed sample-functions sample-once (λ c i p f q.
      let (_, a, _, _, _) = p in
      let (_, b, _, _, _) = q in sym (sample-called c a) ∙ sample-called i b)
