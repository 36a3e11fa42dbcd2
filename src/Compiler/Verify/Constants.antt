-- ===== src/Compiler/Verify/Constants.antt =====
-- `addresses_only_constants` of compiler/src/verify.rs against what it looks for.
use llvm_metal.Base.{
  ℕ, zero, suc, ◌<◌, ◌≡◌, refl, ◌↔◌, inl, inr, true, false, arith, all_iff, Bool-cases,
}
use llvm_metal.Compiler.Llvm.{Llvm, Opcode}
use llvm_metal.Compiler.Ir.{is_pointer}
use llvm_metal.Compiler.Ir.Walks.{operands-mem, operands-index}
use llvm_metal.Compiler.Verify.{is_get_element_ptr, only_constants_within, addresses_only_constants}
use llvm_metal.Compiler.Verify.Laws.{IsModule}

is_get_element_ptr-eq : (o : Opcode) → is_get_element_ptr o ≡ true → o ≡ Opcode.get_element_ptr
unfolding is_get_element_ptr
is_get_element_ptr-eq Opcode.get_element_ptr h = refl
is_get_element_ptr-eq _ h = ground arith

module _ (l : Llvm) where
  open l use {Value}

  -- `a` is an address that the constant `c` holds, or `c` itself.
  pub data Holds : Value → Value → Type 0 where
    self : {c a : Value} → c ≡ a → is_pointer l (l.type_of c) ≡ true → Holds c a
    part :
        {c a : Value} (i : ℕ)
        → is_pointer l (l.type_of c) ≡ false
        → i < l.num_operands c
        → Holds (l.get_operand c i) a
        → Holds c a

  -- The address is null, a global variable, or a constant offset from such an address.
  pub data LeadsToGlobal : Value → Type 0 where
    null : {a : Value} → l.is_a_constant_pointer_null a ≡ true → LeadsToGlobal a
    global : {a : Value} → l.is_a_global_variable a ≡ true → LeadsToGlobal a
    offset :
        {a : Value}
        → l.is_a_constant_expr a ≡ true
        → l.const_opcode a ≡ Opcode.get_element_ptr
        → LeadsToGlobal (l.get_operand a 0)
        → LeadsToGlobal a

module _ (l : Llvm) (laws : IsModule l) where
  open l use {Value}

  accepted_leads :
      (depth : ℕ) (c a : Value)
      → only_constants_within l depth c ≡ true
      → Holds l c a
      → LeadsToGlobal l a
  unfolding only_constants_within
  accepted_leads zero c a h k = cc
  accepted_leads (suc depth) c a h (self e p) =
      rw (← e) (elim (Bool-cases (l.is_a_constant_pointer_null c)) [
        | inl n ↦ null n
        | inr not_null ↦ elim (Bool-cases (l.is_a_global_variable c)) [
          | inl g ↦ global g
          | inr not_global ↦
              let x : l.is_a_constant_expr c ≡ true = ground arith in
              let o : is_get_element_ptr (l.const_opcode c) ≡ true = ground arith in
              let base : only_constants_within l depth (l.get_operand c 0) ≡ true = ground arith in
              let gep = is_get_element_ptr-eq (l.const_opcode c) o in
              offset x gep (accepted_leads depth _ _ base (self refl (laws.base_nested c x gep).1))
        ]
      ])
  accepted_leads (suc depth) c a h (part i p n k) =
      accepted_leads depth (l.get_operand c i) a
        ((all_iff _ _).0 (rw (p, only_constants_within) at h) _ (operands-mem l c i n)) k

  leading_accepted :
      (depth : ℕ) {a : Value}
      → LeadsToGlobal l a
      → is_pointer l (l.type_of a) ≡ true
      → l.nesting a < depth
      → only_constants_within l depth a ≡ true
  unfolding only_constants_within is_get_element_ptr
  leading_accepted zero k p n = absurd (omega arith)
  leading_accepted (suc depth) (null h) p n = ground arith
  leading_accepted (suc depth) (global h) p n = ground arith
  leading_accepted (suc depth) (offset {a} x gep k) p n =
      let (_, pointer, less) = laws.base_nested a x gep in
      let rest = leading_accepted depth k pointer (omega arith) in ground arith

  holding_accepted :
      (depth : ℕ) (c : Value)
      → l.is_a_constant c ≡ true
      → l.nesting c < depth
      → ((a : Value) → Holds l c a → LeadsToGlobal l a)
      → only_constants_within l depth c ≡ true
  unfolding only_constants_within
  holding_accepted zero c k n h = absurd (omega arith)
  holding_accepted (suc depth) c k n h = elim (Bool-cases (is_pointer l (l.type_of c))) [
    | inl p ↦ leading_accepted (suc depth) (h c (self refl p)) p n
    | inr p ↦
        rw (p, only_constants_within)
          ((all_iff _ _).1 λ o m.
            let (i, below, e) = operands-index l c o m in
            let (const, less) = laws.part_nested c i k p below in
            rw (← e) (
              holding_accepted depth (l.get_operand c i) const (omega arith)
                (λ a inside. h a (part i p below inside))))
  ]

  -- `addresses_only_constants` accepts a constant exactly when each address that it holds is null,
  -- a global variable, or an offset from such an address.
  pub addresses_only_constants_iff :
      (c : Value)
      → l.is_a_constant c ≡ true
      → (addresses_only_constants l c ≡ true) ↔ ((a : Value) → Holds l c a → LeadsToGlobal l a)
  unfolding addresses_only_constants
  addresses_only_constants_iff c k =
      (λ h a. accepted_leads _ c a h, holding_accepted (suc (l.nesting c)) c k (omega arith))
