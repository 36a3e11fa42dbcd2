-- ===== src/Compiler/Materialize/Rebuilt.antt =====
-- `without_addresses` of compiler/src/lower/constants.rs: it ends, and with the addresses written back at their
-- paths its result is the constant.
use llvm_metal.Base.{
  ℕ, zero, suc, ◌+◌, ◌<◌, ◌≡◌, refl, ap, ◌∙◌, inl, inr, true, false, some, List, [], ◌∷◌, ◌++◌, map,
  flat_map, arith, range_from, Bool-cases,
}
use mathlib.Core.List.{map-append}
use llvm_metal.Compiler.Llvm.{Llvm, TypeKind}
use llvm_metal.Compiler.Ir.{operands, is_pointer}
use llvm_metal.Compiler.Constants.{addresses}
use llvm_metal.Compiler.Materialize.{
  Made, given, const_null, const_array, const_named_struct, const_struct, Parts, nil, cons,
  collected, refers, rebuilt, without_addresses,
}
use llvm_metal.Compiler.Materialize.Meaning.{Meaning, eval, eval_parts, IsAcyclic, IsRebuilt}
use llvm_metal.Compiler.Materialize.Stable.{refers-not-function, refers-constant}

pub map-flat_map {ℓ κ ι} :
    {A : Type ℓ} {B : Type κ} {C : Type ι} (g : B → C) (f : A → List B) (xs : List A)
    → map g (flat_map f xs) ≡ flat_map (λ a. map g (f a)) xs
unfolding flat_map
map-flat_map g f [] = refl
map-flat_map g f (a ∷ xs) =
    map-append g (f a) (flat_map f xs) ∙ ap (λ (r : List _). map g (f a) ++ r) (map-flat_map g f xs)

abbrev pub valued : {A B : Type 0} → (A → B) → List ℕ × A → List ℕ × B
valued g (path, a) = (path, g a)

abbrev pub indexed : {A : Type 0} → ℕ → List ℕ × A → List ℕ × A
indexed i (path, a) = (i ∷ path, a)

pub map-indexed :
    {A B : Type 0} (g : A → B) (i : ℕ) (es : List (List ℕ × A))
    → map (valued g) (map (indexed i) es) ≡ map (indexed i) (map (valued g) es)
map-indexed g i [] = refl
map-indexed g i ((path, a) ∷ es) = ap (λ (r : List _). (i ∷ path, g a) ∷ r) (map-indexed g i es)

module _ (l : Llvm) where
  open l use {Value, Ty}

  -- `without_addresses` meets only kinds that it rebuilds.
  pub data Cleared : Value → Type 0 where
    whole : {c : Value} → refers l c ≡ false → Cleared c
    emptied :
        {c : Value}
        → refers l c ≡ true
        → IsRebuilt (l.type_kind (l.type_of c))
        → ((i : ℕ) → i < l.num_operands c → Cleared (l.get_operand c i))
        → Cleared c

module _ (l : Llvm) (acyclic : IsAcyclic l) where
  open l use {Value, Ty}

  all_collected :
      (fuel first count : ℕ) (c : Value)
      → ((i : ℕ)
          → i < first + count
          → (m : Made Value Ty) × (without_addresses l fuel (l.get_operand c i) ≡ some m))
      → (ps : Parts Value Ty) × (collected
            (map (without_addresses l fuel) (map (l.get_operand c) (range_from first count)))
          ≡ some ps)
  unfolding collected
  all_collected fuel first zero c h = (nil, refl)
  all_collected fuel first (suc count) c h =
      let (m, e) = h first (omega arith) in
      let (ps, r) = all_collected fuel (suc first) count c (λ i n. h i (omega arith)) in
      (cons m ps, rw (e, collected, r) refl)

  rebuilt-some :
      (ty : Ty) (ps : Parts Value Ty)
      → IsRebuilt (l.type_kind ty)
      → (m : Made Value Ty) × (rebuilt l ty ps ≡ some m)
  unfolding rebuilt
  rebuilt-some ty ps h = by_kind (l.type_kind ty) refl h
    where
      by_kind :
          (k : TypeKind)
          → l.type_kind ty ≡ k
          → IsRebuilt k
          → (m : Made Value Ty) × (rebuilt l ty ps ≡ some m)
      by_kind TypeKind.pointer e h = (const_null ty, rw (e, rebuilt) refl)
      by_kind TypeKind.array e h = (const_array (l.element_type ty) ps, rw (e, rebuilt) refl)
      by_kind TypeKind.struct e h = elim (Bool-cases (l.is_named_struct ty)) [
        | inl n ↦ (const_named_struct ty ps, rw (e, rebuilt, n) refl)
        | inr n ↦ (const_struct (l.is_packed_struct ty) ps, rw (e, rebuilt, n) refl)
      ]
      by_kind _ e h = absurd h

  -- With fuel above the nesting it ends.
  pub without_addresses-total :
      (fuel : ℕ) (c : Value)
      → Cleared l c
      → l.nesting c < fuel
      → (m : Made Value Ty) × (without_addresses l fuel c ≡ some m)
  unfolding without_addresses operands
  without_addresses-total zero c h n = absurd (omega arith)
  without_addresses-total (suc fuel) c (whole e) n = (given c, rw (without_addresses, e) refl)
  without_addresses-total (suc fuel) c (emptied e k parts) n =
      let const = refers-constant l acyclic c e in
      let f = refers-not-function l acyclic c e in
      let (ps, got) = all_collected fuel 0 (l.num_operands c) c (λ i b.
        let below_count : i < l.num_operands c = omega arith in
        let (_, less) = acyclic.operand_nested c i const f below_count in
        without_addresses-total fuel (l.get_operand c i) (parts i below_count) (omega arith)) in
      let (m, made) = rebuilt-some (l.type_of c) ps k in (m, rw (e, without_addresses, got) made)

  rebuilt-pointer :
      (ty : Ty) (ps : Parts Value Ty)
      → is_pointer l ty ≡ true
      → rebuilt l ty ps ≡ some (const_null ty)
  unfolding rebuilt is_pointer
  rebuilt-pointer ty ps h = ground arith

  -- An address becomes null.
  pub without_addresses-pointer :
      (fuel : ℕ) (c : Value)
      → Cleared l c
      → l.nesting c < suc fuel
      → refers l c ≡ true
      → is_pointer l (l.type_of c) ≡ true
      → without_addresses l (suc fuel) c ≡ some (const_null (l.type_of c))
  unfolding without_addresses operands
  without_addresses-pointer fuel c (whole e) n h p = absurd (cc)
  without_addresses-pointer fuel c (emptied e k parts) n h p =
      let const = refers-constant l acyclic c e in
      let f = refers-not-function l acyclic c e in
      let (ps, got) = all_collected fuel 0 (l.num_operands c) c (λ i b.
        let below_count : i < l.num_operands c = omega arith in
        let (_, less) = acyclic.operand_nested c i const f below_count in
        without_addresses-total fuel (l.get_operand c i) (parts i below_count) (omega arith)) in
      rw (e, without_addresses, got) (rebuilt-pointer (l.type_of c) ps p)

module _ (l : Llvm) (acyclic : IsAcyclic l) (x : Meaning l) where
  open l use {Value, Ty}
  open x use {Datum, in_copy}

  -- The addresses of a constant with what they stand for.
  unfoldable pub entries : Value → List (List ℕ × Datum)
  entries c = map (valued in_copy) (addresses l c)

  pub rebuilt_aggregate :
      (ty : Ty) (ps : Parts Value Ty) (ds : List Datum)
      → IsRebuilt (l.type_kind ty)
      → is_pointer l ty ≡ false
      → eval_parts l x ps ≡ some ds
      → (m : Made Value Ty) × (rebuilt l ty ps ≡ some m) × (eval l x m ≡ some (x.aggregate ds))
  unfolding rebuilt eval is_pointer
  rebuilt_aggregate ty ps ds h p v = by_kind (l.type_kind ty) refl h
    where
      by_kind :
          (k : TypeKind)
          → l.type_kind ty ≡ k
          → IsRebuilt k
          → (m : Made Value Ty) × (rebuilt l ty ps ≡ some m) × (eval l x m ≡ some (x.aggregate ds))
      by_kind TypeKind.pointer e h = absurd (ground (arith, e, p))
      by_kind TypeKind.array e h =
          (const_array (l.element_type ty) ps, rw (e, rebuilt) refl, rw v refl)
      by_kind TypeKind.struct e h = elim (Bool-cases (l.is_named_struct ty)) [
        | inl n ↦ (const_named_struct ty ps, rw (e, rebuilt, n) refl, rw v refl)
        | inr n ↦ (const_struct (l.is_packed_struct ty) ps, rw (e, rebuilt, n) refl, rw v refl)
      ]
      by_kind _ e h = absurd h
