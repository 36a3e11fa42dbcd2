-- ===== src/Compiler/Entry/Prologue.antt =====
-- The copy that `entry` of compiler/src/lower/mod.rs makes before it calls the kernel.
use llvm_metal.Base.{ℕ, ◌+◌, ◌<◌, ◌≤◌, ◌⊎◌, List, [], ◌∷◌, Memᴰ}
use llvm_metal.Compiler.Llvm.{Llvm}
use llvm_metal.Compiler.Image.{Relocation, Image}
use llvm_metal.Compiler.Materialize.Meaning.{Meaning}

-- The addresses of eight bytes do not overlap.
abbrev pub Apart : {V : Type 0} → List (Relocation V) → Type 0
Apart [] = Unit
Apart {V} (r ∷ rs) =
    ((s : Relocation V) → Memᴰ s rs → (r.offset + 8 ≤ s.offset) ⊎ (s.offset + 8 ≤ r.offset))
    × Apart rs

-- A byte is outside every address.
abbrev pub Outside : {V : Type 0} → ℕ → List (Relocation V) → Type 0
Outside i [] = Unit
Outside i (r ∷ rs) = ((i < r.offset) ⊎ (r.offset + 8 ≤ i)) × Outside i rs
