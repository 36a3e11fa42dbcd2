-- ===== src/Compiler/Verify/Wide.antt =====
-- `wide` of compiler/src/verify.rs against what it looks for.
use llvm_metal.Base.{ℕ, zero, suc, ◌<◌, ◌≡◌, refl, ◌↔◌, true, arith, any_iff, range_iff, ltb→lt}
use llvm_metal.Compiler.Llvm.{Llvm, TypeKind}
use llvm_metal.Compiler.Verify.{wide_within, wide}
use llvm_metal.Compiler.Verify.Laws.{IsModule}

module _ (l : Llvm) where
  open l use {Ty}

  -- The type has an integer of more than 64 bits somewhere in it.
  pub data IsWide : Ty → Type 0 where
    integer : {ty : Ty} → l.type_kind ty ≡ TypeKind.integer → 64 < l.int_type_width ty → IsWide ty
    array : {ty : Ty} → l.type_kind ty ≡ TypeKind.array → IsWide (l.element_type ty) → IsWide ty
    vector : {ty : Ty} → l.type_kind ty ≡ TypeKind.vector → IsWide (l.element_type ty) → IsWide ty
    struct :
        {ty : Ty} (field : ℕ)
        → l.type_kind ty ≡ TypeKind.struct
        → field < l.count_struct_element_types ty
        → IsWide (l.struct_type_at ty field)
        → IsWide ty

module _ (l : Llvm) where
  open l use {Ty}

  -- The step of `wide_within-finds`, by the kind of the type.
  finds_by_kind :
      (depth : ℕ) (ty : Ty) (k : TypeKind)
      → ((t : Ty) → wide_within l depth t ≡ true → IsWide l t)
      → l.type_kind ty ≡ k
      → wide_within l (suc depth) ty ≡ true
      → IsWide l ty
  unfolding wide_within
  finds_by_kind depth ty TypeKind.integer inner e h =
      integer e (ltb→lt 64 (l.int_type_width ty) (rw (e, wide_within) at h))
  finds_by_kind depth ty TypeKind.array inner e h = array e (inner _ (rw (e, wide_within) at h))
  finds_by_kind depth ty TypeKind.vector inner e h = vector e (inner _ (rw (e, wide_within) at h))
  finds_by_kind depth ty TypeKind.struct inner e h =
      let (field, m, w) = (any_iff _ _).0 (rw (e, wide_within) at h) in
      struct field e ((range_iff (l.count_struct_element_types ty) field).0 m) (inner _ w)
  finds_by_kind depth ty _ inner e h = ground arith

  wide_within-finds : (depth : ℕ) (ty : Ty) → wide_within l depth ty ≡ true → IsWide l ty
  wide_within-finds zero ty h = absurd (unfold wide_within in cc)
  wide_within-finds (suc depth) ty h =
      finds_by_kind depth ty (l.type_kind ty) (wide_within-finds depth) refl h

module _ (l : Llvm) (laws : IsModule l) where
  open l use {Ty}

  wide_within-sees :
      (depth : ℕ) {ty : Ty}
      → IsWide l ty
      → l.type_nesting ty < depth
      → wide_within l depth ty ≡ true
  unfolding wide_within
  wide_within-sees zero w h = absurd (omega arith)
  wide_within-sees (suc depth) (integer {ty} k h) n = ground arith
  wide_within-sees (suc depth) (array {ty} k w) n =
      ground (arith, wide_within-sees depth w, laws.array_nested ty k)
  wide_within-sees (suc depth) (vector {ty} k w) n =
      ground (arith, wide_within-sees depth w, laws.vector_nested ty k)
  wide_within-sees (suc depth) (struct {ty} field k f w) n =
      let inner = wide_within-sees depth w (omega (arith, laws.struct_nested ty field k f)) in
      rw (k, wide_within)
        ((any_iff _ _).1 (field, (range_iff (l.count_struct_element_types ty) field).1 f, inner))

  -- `wide` holds of exactly the types with an integer of more than 64 bits somewhere in them,
  -- elements of arrays and vectors and fields of structs included.
  pub wide_iff : (ty : Ty) → (wide l ty ≡ true) ↔ IsWide l ty
  unfolding wide
  wide_iff ty =
      (wide_within-finds l (suc (l.type_nesting ty)) ty, λ w. wide_within-sees _ w (omega arith))
