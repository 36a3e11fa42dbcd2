-- ===== src/Compiler/Ir/Walks.antt =====
-- What the walks of compiler/src/ir.rs return.
use llvm_metal.Base.{
  ℕ, zero, suc, ◌≤◌, ◌≡◌, refl, ap, Option, none, some, List, [], ◌∷◌, arith, length, Memᴰ, ◌<◌,
  range, range_iff, flat_map,
}
use llvm_metal.Compiler.Llvm.{Llvm}
use llvm_metal.Compiler.Ir.{chain, functions, operands, instructions, blocks}
use mathlib.Core.List.Memᴰ

-- `xs` is the linked list that starts at `first`.
abbrev pub IsChain {ℓ} : {T : Type ℓ} → (T → Option T) → Option T → List T → Type ℓ
IsChain next first [] = first ≡ none
IsChain next first (x ∷ xs) = (first ≡ some x) × IsChain next (next x) xs

-- A linked list that is within the bound is returned whole and in order.
pub chain_lem {ℓ} :
    {T : Type ℓ} (next : T → Option T) (first : Option T) (xs : List T) (bound : ℕ)
    → IsChain next first xs
    → length xs ≤ bound
    → chain bound first next ≡ xs
unfolding chain
chain_lem next first [] zero c h = refl
chain_lem next first [] (suc bound) c h = rw c
chain_lem next first (x ∷ xs) zero c h = absurd (omega arith)
chain_lem next first (x ∷ xs) (suc bound) (e, c) h =
    rw e (ap (λ (r : List _). x ∷ r) (chain_lem next (next x) xs bound c (omega arith)))

pub length-chain-le {ℓ} :
    {T : Type ℓ} (next : T → Option T) (first : Option T) (bound : ℕ)
    → length (chain bound first next) ≤ bound
unfolding chain
length-chain-le next first zero = omega arith
length-chain-le next none (suc bound) = omega arith
length-chain-le next (some x) (suc bound) = omega (arith, length-chain-le next (next x) bound)

pub chain-none {ℓ} : {T : Type ℓ} (next : T → Option T) (bound : ℕ) → chain bound none next ≡ []
unfolding chain
chain-none next zero = refl
chain-none next (suc bound) = refl

module _ (l : Llvm) where
  pub length-functions-le : length (functions l) ≤ l.list_bound
  unfolding functions
  length-functions-le = length-chain-le l.next_function l.first_function l.list_bound

  pub operands-mem :
      (v : l.Value) (i : ℕ) → i < l.num_operands v → Memᴰ (l.get_operand v i) (operands l v)
  unfolding operands
  operands-mem v i h = Memᴰ.map (l.get_operand v) ((range_iff (l.num_operands v) i).1 h)

  pub operands-index :
      (v o : l.Value)
      → Memᴰ o (operands l v)
      → (i : ℕ) × (i < l.num_operands v) × (l.get_operand v i ≡ o)
  unfolding operands
  operands-index v o m =
      let (i, n, e) = Memᴰ.of_map (l.get_operand v) (range (l.num_operands v)) m in
      (i, (range_iff (l.num_operands v) i).0 n, e)

  pub instructions-empty : (f : l.Value) → l.first_block f ≡ none → instructions l f ≡ []
  unfolding instructions blocks flat_map
  instructions-empty f e = rw (e, chain-none) refl
