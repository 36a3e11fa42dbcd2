-- ===== src/Compiler/Materialize/Stable.antt =====
-- `refers` and `addresses` of compiler/src/lower/constants.rs do not depend on the nesting they are run to, so
-- they keep the equations of the source.
use llvm_metal.Base.{
  ℕ, zero, suc, ◌<◌, ◌≡◌, refl, sym, ap, ap₂, ◌∙◌, inl, inr, Bool, true, false, ◌||◌, List, [], ◌∷◌,
  ◌++◌, map, any, flat_map, arith, Memᴰ, range, range_iff, Bool-cases,
}
use llvm_metal.Compiler.Llvm.{Llvm}
use llvm_metal.Compiler.Ir.{operands, is_pointer}
use llvm_metal.Compiler.Ir.Walks.{operands-index}
use llvm_metal.Compiler.Constants.{refers_within, addresses_within, addresses}
use llvm_metal.Compiler.Materialize.{refers}
use llvm_metal.Compiler.Materialize.Meaning.{IsAcyclic}

any-congr {ℓ} :
    {A : Type ℓ} (p q : A → Bool) (xs : List A)
    → ((a : A) → Memᴰ a xs → p a ≡ q a)
    → any p xs ≡ any q xs
unfolding any
any-congr p q [] h = refl
any-congr p q (a ∷ xs) h =
    ap₂ (λ (b c : Bool). b || c) (h a (Memᴰ.head refl))
      (any-congr p q xs (λ b m. h b (Memᴰ.tail m)))

flat_map-congr {ℓ κ} :
    {A : Type ℓ} {B : Type κ} (f g : A → List B) (xs : List A)
    → ((a : A) → Memᴰ a xs → f a ≡ g a)
    → flat_map f xs ≡ flat_map g xs
unfolding flat_map
flat_map-congr f g [] h = refl
flat_map-congr f g (a ∷ xs) h =
    ap₂ (λ (b c : List _). b ++ c) (h a (Memᴰ.head refl))
      (flat_map-congr f g xs (λ b m. h b (Memᴰ.tail m)))

module _ (l : Llvm) (acyclic : IsAcyclic l) where
  open l use {Value}

  refers_stable :
      (d e : ℕ) (c : Value)
      → l.is_a_constant c ≡ true
      → l.nesting c < d
      → l.nesting c < e
      → refers_within l d c ≡ refers_within l e c
  unfolding refers_within
  refers_stable zero e c k p q = absurd (omega arith)
  refers_stable (suc d) zero c k p q = absurd (omega arith)
  refers_stable (suc d) (suc e) c k p q = elim (Bool-cases (l.is_a_function c)) [
    | inl f ↦ rw (k, f) refl
    | inr f ↦
        rw (k, f)
          (ap (λ (b : Bool). l.is_a_global_variable c || b)
            (any-congr (refers_within l d) (refers_within l e) (operands l c) (λ o m.
              let (i, n, at) = operands-index l c o m in
              let (const, less) = acyclic.operand_nested c i k f n in
              rw (← at) (refers_stable d e (l.get_operand c i) const (omega arith) (omega arith)))))
  ]

  -- A constant that refers to a global is no function, and is one or has an operand that does.
  pub refers_within-eq :
      (d : ℕ) (c : Value)
      → l.is_a_constant c ≡ true
      → l.nesting c < d
      → refers_within l d c ≡ refers l c
  unfolding refers
  refers_within-eq d c k p = refers_stable d (suc (l.nesting c)) c k p (omega arith)

  pub refers-not-function : (c : Value) → refers l c ≡ true → l.is_a_function c ≡ false
  unfolding refers refers_within
  refers-not-function c h = ground arith

  pub refers-constant : (c : Value) → refers l c ≡ true → l.is_a_constant c ≡ true
  unfolding refers refers_within
  refers-constant c h = ground arith

  addresses_stable :
      (d e : ℕ) (c : Value)
      → l.is_a_constant c ≡ true
      → l.nesting c < d
      → l.nesting c < e
      → addresses_within l d c ≡ addresses_within l e c
  unfolding addresses_within
  addresses_stable zero e c k p q = absurd (omega arith)
  addresses_stable (suc d) zero c k p q = absurd (omega arith)
  addresses_stable (suc d) (suc e) c k p q =
      let same = refers_within-eq (suc d) c k p ∙ sym (refers_within-eq (suc e) c k q) in
      elim (Bool-cases (refers_within l (suc e) c)) [
        | inr no_address ↦ rw (same, no_address) refl
        | inl some_address ↦ elim (Bool-cases (is_pointer l (l.type_of c))) [
          | inl pointer ↦ rw (same, some_address, pointer) refl
          | inr other ↦
              let f = refers-not-function c (sym (refers_within-eq (suc e) c k q) ∙ some_address) in
              rw (same, some_address, other)
                (flat_map-congr _ _ (range (l.num_operands c)) (λ i m.
                  let n = (range_iff (l.num_operands c) i).0 m in
                  let (const, less) = acyclic.operand_nested c i k f n in
                  ap (map (λ (path, target). (i ∷ path, target)))
                    (addresses_stable d e (l.get_operand c i) const (omega arith) (omega arith))))
        ]
      ]

  pub addresses-plain : (c : Value) → refers l c ≡ false → addresses l c ≡ []
  unfolding addresses addresses_within refers
  addresses-plain c h = rw h refl

  pub addresses-pointer :
      (c : Value)
      → refers l c ≡ true
      → is_pointer l (l.type_of c) ≡ true
      → addresses l c ≡ ([], c) ∷ []
  unfolding addresses addresses_within refers
  addresses-pointer c h p = rw (h, p) refl

  pub addresses-aggregate :
      (c : Value)
      → refers l c ≡ true
      → is_pointer l (l.type_of c) ≡ false
      → addresses l c
        ≡ flat_map
            (λ i. map (λ (path, target). (i ∷ path, target)) (addresses l (l.get_operand c i)))
            (range (l.num_operands c))
  unfolding addresses addresses_within refers
  addresses-aggregate c h p =
      let k = refers-constant c h in
      let f = refers-not-function c h in
      rw (h, p)
        (flat_map-congr _ _ (range (l.num_operands c)) (λ i m.
          let n = (range_iff (l.num_operands c) i).0 m in
          let (const, less) = acyclic.operand_nested c i k f n in
          ap (map (λ (path, target). (i ∷ path, target))) (
            addresses_stable (l.nesting c) (suc (l.nesting (l.get_operand c i))) (l.get_operand c i)
              const less (omega arith))))
