-- ===== src/Compiler/Constants.antt =====
-- compiler/src/lower/constants.rs: which constants hold addresses of globals, at which paths, and at which offsets
-- the paths are.
use llvm_metal.Base.{
  ℕ, zero, suc, ◌+◌, ◌*◌, ◌%◌, ◌^◌, Bool, false, not, ◌&&◌, ◌||◌, List, [], ◌∷◌, map, any, flat_map,
  range, if◌then◌else◌,
}
use llvm_metal.Compiler.Llvm.{Llvm, TypeKind}
use llvm_metal.Compiler.Ir.{operands, is_pointer}

abbrev pub u64 : ℕ → ℕ
u64 n = n % 2 ^ 64

module _ (l : Llvm) where
  open l use {Value, Ty}

  -- `refers`, to a nesting of the constant.
  unfoldable pub refers_within : ℕ → Value → Bool
  refers_within zero constant = false
  refers_within (suc depth) constant =
      l.is_a_constant constant
      && not (l.is_a_function constant)
      && (l.is_a_global_variable constant || any (refers_within depth) (operands l constant))

  -- `addresses`, to a nesting of the constant; `refers` is asked to the same nesting.
  unfoldable pub addresses_within : ℕ → Value → List (List ℕ × Value)
  addresses_within zero constant = []
  addresses_within (suc depth) constant =
      let parts =
        flat_map
          (λ index.
            map (λ (path, target). (index ∷ path, target))
              (addresses_within depth (l.get_operand constant index)))
          (range (l.num_operands constant)) in
      if not (refers_within (suc depth) constant)
      then []
      else if is_pointer l (l.type_of constant)
      then ([], constant) ∷ []
      else parts

  unfoldable pub addresses : Value → List (List ℕ × Value)
  addresses constant = addresses_within (suc (l.nesting constant)) constant

  pub offset_of : Ty → List ℕ → ℕ
  offset_of ty [] = 0
  offset_of ty (index ∷ rest) = elim (l.type_kind ty) [
    | TypeKind.struct ↦
        u64 (l.offset_of_element ty index + offset_of (l.struct_type_at ty index) rest)
    | _ ↦ u64 (u64 (index * l.abi_size (l.element_type ty)) + offset_of (l.element_type ty) rest)
  ]
