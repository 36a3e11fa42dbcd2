-- ===== src/Compiler/Lower/Slots.antt =====
-- `slots` of compiler/src/lower/mod.rs counts the buffers that the kernel names.
use llvm_metal.Base.{
  ℕ, ◌+◌, ◌%◌, ◌^◌, ◌≤◌, ◌≡◌, ◌↔◌, refl, true, some, List, [], ◌∷◌, Memᴰ, arith, flat_map,
  flat_map_iff, ◌⊎◌, inl, inr, Bool-cases, Option-cases,
}
use mathlib.Core.List.Memᴰ
use llvm_metal.Compiler.Llvm.{Llvm}
use llvm_metal.Compiler.Ir.{functions, instructions, callee}
use llvm_metal.Compiler.Verify.{names_slot}
use llvm_metal.Compiler.Lower.{maximum, slots, slot_count, slot_of}

-- The maximum is the least bound.
maximum-le_iff : (xs : List ℕ) (n : ℕ) → (maximum xs ≤ n) ↔ ((x : ℕ) → Memᴰ x xs → x ≤ n)
unfolding maximum
maximum-le_iff [] n = (λ h x m. absurd (Memᴰ.not-nil m), λ h. omega arith)
maximum-le_iff (y ∷ ys) n =
    let rest = maximum-le_iff ys n in
    (
      λ h x m. elim m [
        | Memᴰ.head e ↦ rw e (ground arith)
        | Memᴰ.tail k ↦ rest.0 (ground arith) x k
      ],
      λ h.
          let first = h y (Memᴰ.head refl) in
          let others = rest.1 (λ x m. h x (Memᴰ.tail m)) in ground arith,
    )

module _ (l : Llvm) where
  open l use {Value}

  -- A call that names a slot counts once, and any other instruction not at all.
  counted :
      (call t : Value)
      → l.is_a_call_inst call ≡ true
      → callee l call ≡ some t
      → names_slot (l.value_name t) ≡ true
      → slot_count l call ≡ (slot_of l (l.get_operand call 0) + 1) % 2 ^ 64 ∷ []
  unfolding slot_count
  counted call t c e s = ground arith

  slot_count-cases :
      (call : Value)
      → (slot_count l call ≡ [])
        ⊎ ((t : Value) × (l.is_a_call_inst call ≡ true)
            × (callee l call ≡ some t)
            × (names_slot (l.value_name t) ≡ true))
  unfolding slot_count
  slot_count-cases call = elim (Bool-cases (l.is_a_call_inst call)) [
    | inr c ↦ inl (ground arith)
    | inl c ↦ elim (Option-cases (callee l call)) [
      | inl e ↦ inl (ground arith)
      | inr (t, e) ↦ elim (Bool-cases (names_slot (l.value_name t))) [
        | inr s ↦ inl (ground arith)
        | inl s ↦ inr (t, c, e, s)
      ]
    ]
  ]

  slot_count_iff :
      (call : Value) (n : ℕ)
      → Memᴰ n (slot_count l call) ↔ (
          (t : Value) × (l.is_a_call_inst call ≡ true)
          × (callee l call ≡ some t)
          × (names_slot (l.value_name t) ≡ true)
          × (n ≡ (slot_of l (l.get_operand call 0) + 1) % 2 ^ 64))
  slot_count_iff call n = (
    λ m. elim (slot_count-cases call) [
      | inl e ↦ absurd (Memᴰ.not-nil (rw e at m))
      | inr (t, c, e, s) ↦ elim (rw (counted call t c e s) at m) [
        | Memᴰ.head same ↦ (t, c, e, s, same)
        | Memᴰ.tail k ↦ absurd (Memᴰ.not-nil k)
      ]
    ],
    λ (t, c, e, s, same). rw (counted call t c e s) (Memᴰ.head same),
  )

  -- `slots` is the least number that is above every slot named by a call of a device operation.
  pub slots-le_iff :
      (n : ℕ)
      → (slots l ≤ n) ↔ (
          (f call t : Value)
          → Memᴰ f (functions l)
          → Memᴰ call (instructions l f)
          → l.is_a_call_inst call ≡ true
          → callee l call ≡ some t
          → names_slot (l.value_name t) ≡ true
          → (slot_of l (l.get_operand call 0) + 1) % 2 ^ 64 ≤ n)
  unfolding slots
  slots-le_iff n =
      let every =
        maximum-le_iff (flat_map (λ f. flat_map (slot_count l) (instructions l f)) (functions l))
          n in
      (
        λ h f call t mf mc c e s. every.0 h _ (
            (flat_map_iff _ _ _).1 (
              f,
              mf,
              (flat_map_iff _ _ _).1 (call, mc, (slot_count_iff call _).1 (t, c, e, s, refl)),
            )),
        λ h. every.1 λ x m.
            let (f, mf, inner) = (flat_map_iff _ _ _).0 m in
            let (call, mc, counted) = (flat_map_iff _ _ _).0 inner in
            let (t, c, e, s, same) = (slot_count_iff call x).0 counted in
            rw same (h f call t mf mc c e s),
      )
