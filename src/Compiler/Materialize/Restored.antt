-- ===== src/Compiler/Materialize/Restored.antt =====
-- The constants that `materialize` of compiler/src/lower/constants.rs takes, and what `without_addresses` with
-- the addresses written back makes of them.
use mathlib.Core.Path.{fun_ext}
use llvm_metal.Base.{
  ℕ, zero, suc, ◌+◌, ◌<◌, ◌≡◌, refl, sym, ap, ◌∙◌, ◌⊎◌, true, false, some, List, [], ◌∷◌, map,
  flat_map, arith, length, drop, Memᴰ, range, range_from,
}
use llvm_metal.Compiler.Llvm.{Llvm, Opcode}
use llvm_metal.Compiler.Ir.{operands, is_pointer}
use llvm_metal.Compiler.Constants.{addresses}
use llvm_metal.Compiler.Materialize.{
  Made, given, const_null, Parts, nil, cons, collected, refers, without_addresses, offset_at,
}
use llvm_metal.Compiler.Materialize.Meaning.{Meaning, eval, eval_parts, IsAcyclic, IsMeaning}
use llvm_metal.Compiler.Materialize.Patched.{patch, update, below, Each, patch-parts}
use llvm_metal.Compiler.Materialize.Stable.{
  refers-not-function, refers-constant, addresses-plain, addresses-pointer, addresses-aggregate,
}
use llvm_metal.Compiler.Materialize.Rebuilt.{
  Cleared, whole, emptied, valued, indexed, map-indexed, map-flat_map, entries, rebuilt_aggregate,
  without_addresses-pointer,
}

module _ (l : Llvm) (offsets : List (l.Value × ℕ)) where
  open l use {Value}

  mutual
    -- A constant that `materialize` takes: one without addresses, a global of the image, an offset from such
    -- an address by constants without addresses, or its number, or an aggregate.
    pub data Sound : Value → Type 0 where
      plain : {c : Value} → refers l c ≡ false → Sound c
      global :
          {c : Value} (offset : ℕ)
          → refers l c ≡ true
          → l.is_a_global_variable c ≡ true
          → offset_at l.value_eq offsets c ≡ some offset
          → Sound c
      from_base :
          {c : Value}
          → refers l c ≡ true
          → l.is_a_global_variable c ≡ false
          → l.is_a_constant_expr c ≡ true
          → (l.const_opcode c ≡ Opcode.get_element_ptr) ⊎ (l.const_opcode c ≡ Opcode.ptr_to_int)
          → 0 < l.num_operands c
          → Sound (l.get_operand c 0)
          → ((o : Value) → Memᴰ o (drop 1 (operands l c)) → refers l o ≡ false)
          → Sound c
      aggregate :
          {c : Value}
          → refers l c ≡ true
          → l.is_a_global_variable c ≡ false
          → l.is_a_constant_expr c ≡ false
          → is_pointer l (l.type_of c) ≡ false
          → Inside c
          → Cleared l c
          → Sound c

    -- A part of an aggregate: its addresses are ones that `materialize` takes.
    pub data Inside : Value → Type 0 where
      without : {c : Value} → refers l c ≡ false → Inside c
      address :
          {c : Value} → refers l c ≡ true → is_pointer l (l.type_of c) ≡ true → Sound c → Inside c
      parts :
          {c : Value}
          → refers l c ≡ true
          → is_pointer l (l.type_of c) ≡ false
          → l.is_a_constant_expr c ≡ false
          → ((i : ℕ) → i < l.num_operands c → Inside (l.get_operand c i))
          → Inside c

module _ (l : Llvm) (acyclic : IsAcyclic l) (x : Meaning l) (offsets : List (l.Value × ℕ))
    (copy : l.Value) (means : IsMeaning l x offsets copy) where
  open l use {Value, Ty}
  open x use {Datum, denote, in_copy}

  -- What `without_addresses` leaves of a constant, and what the addresses make of it again.
  abbrev pub IsCleared : ℕ → Value → Type 0
  IsCleared fuel c =
      (m : Made Value Ty) × (without_addresses l fuel c ≡ some m)
      × (d : Datum) × (eval l x m ≡ some d)
      × (patch l x (entries l acyclic x c) d ≡ some (in_copy c))

  cleared_parts :
      (fuel first count : ℕ) (c : Value)
      → ((i : ℕ) → i < first + count → IsCleared fuel (l.get_operand c i))
      → (ps : Parts Value Ty) × (collected
            (map (without_addresses l fuel) (map (l.get_operand c) (range_from first count)))
          ≡ some ps)
        × (ds : List Datum) × (eval_parts l x ps ≡ some ds)
        × (length ds ≡ count)
        × Each l x
            (λ i. entries l acyclic x (l.get_operand c i))
            first
            ds
            (map in_copy (map (l.get_operand c) (range_from first count)))
  unfolding collected eval
  cleared_parts fuel first zero c h = (nil, refl, [], refl, refl, tt)
  cleared_parts fuel first (suc count) c h =
      let (m, e, d, v, patched) = h first (omega arith) in
      let (ps, r, ds, w, size, each) =
        cleared_parts fuel (suc first) count c (λ i n. h i (omega arith)) in
      (
        cons m ps,
        rw (e, collected, r) refl,
        d ∷ ds,
        rw (v, eval_parts, w) refl,
        ap suc size,
        (patched, each),
      )

  entries-aggregate :
      (c : Value)
      → refers l c ≡ true
      → is_pointer l (l.type_of c) ≡ false
      → entries l acyclic x c
        ≡ flat_map
            (λ i. below l x i (entries l acyclic x (l.get_operand c i)))
            (range (l.num_operands c))
  unfolding entries
  entries-aggregate c h p =
      ap (map (valued in_copy)) (addresses-aggregate l acyclic c h p)
      ∙ map-flat_map (valued in_copy) (λ i. map (indexed i) (addresses l (l.get_operand c i)))
          (range (l.num_operands c))
      ∙ ap (λ (f : ℕ → List (List ℕ × Datum)). flat_map f (range (l.num_operands c)))
          (fun_ext (λ i. map-indexed in_copy i (addresses l (l.get_operand c i))))

  patched_whole :
      (c : Value) (ds : List Datum)
      → refers l c ≡ true
      → is_pointer l (l.type_of c) ≡ false
      → l.is_a_constant_expr c ≡ false
      → length ds ≡ l.num_operands c
      → Each l x
          (λ i. entries l acyclic x (l.get_operand c i))
          0
          ds
          (map in_copy (map (l.get_operand c) (range_from 0 (l.num_operands c))))
      → patch l x (entries l acyclic x c) (x.aggregate ds) ≡ some (in_copy c)
  unfolding operands
  patched_whole c ds e p q size each =
      let rs = map in_copy (operands l c) in
      let shape : range_from 0 (l.num_operands c) ≡ range_from 0 (length ds) =
        ap (range_from 0) (sym size) in
      ap (λ (es : List (List ℕ × Datum)). patch l x es (x.aggregate ds))
        (entries-aggregate c e p
          ∙ ap (flat_map (λ i. below l x i (entries l acyclic x (l.get_operand c i)))) shape)
      ∙ patch-parts l x (λ i. entries l acyclic x (l.get_operand c i)) [] ds rs each
      ∙ ap some (sym (means.of_aggregate c e p q))

  pub inside_lem :
      (fuel : ℕ) (c : Value)
      → Inside l offsets c
      → Cleared l c
      → l.nesting c < fuel
      → IsCleared fuel c
  unfolding without_addresses eval entries patch update operands
  inside_lem zero c h k n = absurd (omega arith)
  inside_lem (suc fuel) c (without e) k n = (
    given c,
    rw (without_addresses, e) refl,
    denote c,
    refl,
    rw (addresses-plain l acyclic c e) (ap some (sym (means.of_plain c e))),
  )
  inside_lem (suc fuel) c (address e p s) k n = (
    const_null (l.type_of c),
    without_addresses-pointer l acyclic fuel c k n e p,
    x.null_of (l.type_of c),
    refl,
    rw (addresses-pointer l acyclic c e p) refl,
  )
  inside_lem (suc fuel) c (parts e p q within) (whole e') n = absurd (cc)
  inside_lem (suc fuel) c (parts e p q within) (emptied _ kind deeper) n =
      let const = refers-constant l acyclic c e in
      let f = refers-not-function l acyclic c e in
      let (ps, got, ds, v, size, each) = cleared_parts fuel 0 (l.num_operands c) c (λ i b.
        let within_count : i < l.num_operands c = omega arith in
        let (_, less) = acyclic.operand_nested c i const f within_count in
        inside_lem fuel (l.get_operand c i) (within i within_count) (deeper i within_count)
          (omega arith)) in
      let (m, made, value) = rebuilt_aggregate l acyclic x (l.type_of c) ps ds kind p v in
      (
        m,
        rw (without_addresses, e, got) made,
        x.aggregate ds,
        value,
        patched_whole c ds e p q size each,
      )
