-- ===== src/Compiler/Select/Refers.antt =====
-- What `keep_reachable` of compiler/src/select.rs follows from one value.
use llvm_metal.Base.{
  ◌≡◌, refl, inl, inr, Bool-cases, Option-cases, true, false, some, Memᴰ, keep, keep_iff,
  flat_map_iff,
}
use mathlib.Core.List.Memᴰ
use llvm_metal.Compiler.Llvm.{Llvm}
use llvm_metal.Compiler.Ir.{instructions, operands}
use llvm_metal.Compiler.Select.{references}

module _ (l : Llvm) where
  open l use {Value}

  -- One value refers to another: a function in a constant operand of one of its instructions, a global
  -- variable by its initializer, and another value by a constant operand.
  pub data Refers (v w : Value) : Type 0 where
    in_function :
        {i : Value}
        → l.is_a_function v ≡ true
        → Memᴰ i (instructions l v)
        → Memᴰ w (operands l i)
        → l.is_a_constant w ≡ true
        → Refers v w
    in_global :
        l.is_a_function v ≡ false
        → l.is_a_global_variable v ≡ true
        → l.get_initializer v ≡ some w
        → Refers v w
    in_constant :
        l.is_a_function v ≡ false
        → l.is_a_global_variable v ≡ false
        → Memᴰ w (operands l v)
        → l.is_a_constant w ≡ true
        → Refers v w

  pub references-into : (v w : Value) → Memᴰ w (references l v) → Refers v w
  unfolding references
  references-into v w m = elim (Bool-cases (l.is_a_function v)) [
    | inl f ↦
        let at =
          flat_map_iff (λ instruction. keep l.is_a_constant (operands l instruction))
            (instructions l v) w in
        let (i, listed, n) = at.0 (rw (f, references) at m) in
        let (operand, is_constant) = (keep_iff l.is_a_constant (operands l i) w).0 n in
        in_function f listed operand is_constant
    | inr nf ↦ elim (Bool-cases (l.is_a_global_variable v)) [
      | inl g ↦ elim (Option-cases (l.get_initializer v)) [
        | inl e ↦ absurd (Memᴰ.not-nil (rw (nf, g, e, references) at m))
        | inr (x, e) ↦
            let same = Memᴰ.eq_of_singleton (rw (nf, g, e, references) at m) in
            in_global nf g (rw same e)
      ]
      | inr ng ↦
          let (operand, is_constant) =
            (keep_iff l.is_a_constant (operands l v) w).0 (rw (nf, ng, references) at m) in
          in_constant nf ng operand is_constant
    ]
  ]

  pub references-onto : (v w : Value) → Refers v w → Memᴰ w (references l v)
  unfolding references
  references-onto v w (in_function {i} f listed operand is_constant) =
      rw (f, references)
        ((flat_map_iff (λ instruction. keep l.is_a_constant (operands l instruction))
            (instructions l v) w).1
          (i, listed, (keep_iff l.is_a_constant (operands l i) w).1 (operand, is_constant)))
  references-onto v w (in_global nf g e) = rw (nf, g, e, references) (Memᴰ.head refl)
  references-onto v w (in_constant nf ng operand is_constant) =
      rw (nf, ng, references) ((keep_iff l.is_a_constant (operands l v) w).1 (operand, is_constant))
