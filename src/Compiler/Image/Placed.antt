-- ===== src/Compiler/Image/Placed.antt =====
-- The image of compiler/src/lower/constants.rs: the globals do not overlap, and are aligned.
use llvm_metal.Base.{
  ℕ, zero, suc, ◌+◌, ◌-◌, ◌*◌, ◌/◌, ◌%◌, ◌^◌, ◌<◌, ◌≤◌, ◌≡◌, refl, sym, ◌∙◌, ap, none, some, List,
  [], ◌∷◌, ◌++◌, Memᴰ, arith, ltb, ◌==◌, if◌then◌else◌,
}
use native.Mathlib.Nat.{mod-lt, mod_self, mod-eq_of_lt, div-add-mod, mul-mod_right}
use llvm_metal.Compiler.Llvm.{Llvm}
use llvm_metal.Compiler.Ir.{globals}
use llvm_metal.Compiler.Verify.{verify}
use llvm_metal.Compiler.Verify.Laws.{IsModule}
use llvm_metal.Compiler.Verify.Accepted.{IsConstantData, verify_iff}
use llvm_metal.Compiler.Constants.{u64}
use llvm_metal.Compiler.Materialize.{Made, without_addresses}
use llvm_metal.Compiler.Materialize.Meaning.{IsAcyclic}
use llvm_metal.Compiler.Materialize.Rebuilt.{Cleared, without_addresses-total}
use llvm_metal.Compiler.Image.{
  Image, zeros, initial, padding, align_of, relocations_of, place, image,
}

-- Padding goes to the next multiple, and is shorter than the alignment.
padding_lem :
    (size align : ℕ)
    → 0 < align
    → ((size + padding size align) % align ≡ 0) × (padding size align < align)
unfolding padding
padding_lem size align h = by_rest (size % align) refl
  where
    whole : align * (size / align) + size % align ≡ size
    whole = div-add-mod size align

    by_rest :
        (r : ℕ)
        → size % align ≡ r
        → ((size + padding size align) % align ≡ 0) × (padding size align < align)
    by_rest zero e =
        let none_left : (align - size % align) % align ≡ 0 =
          rw e (ap (λ (z : ℕ). z % align) (omega arith) ∙ mod_self align) in
        let exact : size ≡ align * (size / align) = omega (arith, whole, e) in
        (
          rw (padding, none_left) (ap (λ (z : ℕ). z % align) (omega (arith, e, whole)) ∙ e),
          rw (padding, none_left) h,
        )
    by_rest (suc r) e =
        let below : suc r < align = rw e at (mod-lt size h) in
        let left : (align - size % align) % align ≡ align - suc r =
          rw e (mod-eq_of_lt (omega arith)) in
        let multiple : size + (align - suc r) ≡ align * suc (size / align) =
          omega (arith, whole, e) in
        (
          rw (padding, left, multiple) (mul-mod_right align (suc (size / align))),
          rw (padding, left) (omega arith),
        )

module _ (l : Llvm) where
  open l use {Value, Ty}

  -- The bytes of a global's initializer.
  abbrev pub size_of : Value → ℕ
  size_of g = elim (l.get_initializer g) [ none ↦ 0 | some c ↦ l.abi_size (l.type_of c) ]

  -- The offsets are those of the globals in turn, each aligned, after the one before, and the last
  -- ends inside the image.
  abbrev pub IsPlaced : ℕ → List Value → List (Value × ℕ) → ℕ → Type 0
  IsPlaced start [] [] end = start ≤ end
  IsPlaced start [] (p ∷ ps) end = ⊥
  IsPlaced start (g ∷ gs) [] end = ⊥
  IsPlaced start (g ∷ gs) ((h, offset) ∷ ps) end =
      (g ≡ h)
      × (start ≤ offset)
      × (offset % align_of l g ≡ 0)
      × IsPlaced (offset + size_of g) gs ps end

  -- Room enough for the globals, each with its padding.
  abbrev pub room : List Value → ℕ
  room [] = 0
  room (g ∷ gs) = align_of l g + size_of g + room gs

  align_of-pos : (g : Value) → 0 < align_of l g
  unfolding align_of
  align_of-pos g = ground arith

  -- A global has an initializer, of which `without_addresses` makes a constant.
  abbrev IsCleared : ℕ → Value → Type 0
  IsCleared fuel g =
      (c : Value) × (l.get_initializer g ≡ some c)
      × (m : Made Value Ty) × (without_addresses l fuel c ≡ some m)

  place_lem :
      (fuel size alignment : ℕ) (gs : List Value)
      → ((g : Value) → Memᴰ g gs → IsCleared fuel g)
      → size + room gs < 2 ^ 64
      → (i : Image Value Ty) × (place l fuel size alignment gs ≡ some i)
        × IsPlaced size gs i.offsets i.size
  unfolding place
  place_lem fuel size alignment [] known fits = (_, refl, omega arith)
  place_lem fuel size alignment (g ∷ gs) known fits =
      let (c, e, m, cleared) = known g (Memᴰ.head refl) in
      let (aligned, short) = padding_lem size (align_of l g) (align_of-pos g) in
      let abi : size_of g ≡ l.abi_size (l.type_of c) = rw (size_of, e) refl in
      let start : u64 (size + padding size (align_of l g)) ≡ size + padding size (align_of l g) =
        mod-eq_of_lt (omega arith) in
      let next : u64 (u64 (size + padding size (align_of l g)) + l.abi_size (l.type_of c))
          ≡ size + padding size (align_of l g) + size_of g =
        rw (start, abi) (mod-eq_of_lt (omega (arith, abi))) in
      let (later, runs, placed) =
        place_lem fuel (u64 (u64 (size + padding size (align_of l g)) + l.abi_size (l.type_of c)))
          (if ltb alignment (align_of l g) then align_of l g else alignment) gs
          (λ x m. known x (Memᴰ.tail m)) (omega (arith, next)) in
      (
        record {
          parts =
              if padding size (align_of l g) == 0
              then initial m ∷ later.parts
              else zeros (padding size (align_of l g)) ∷ (initial m ∷ later.parts);
          offsets = (g, u64 (size + padding size (align_of l g))) ∷ later.offsets;
          relocations =
              relocations_of l (u64 (size + padding size (align_of l g))) c ++ later.relocations;
          size = later.size;
          alignment = later.alignment;
        },
        rw (place, e, cleared, runs) refl,
        (
          refl,
          rw start (omega arith),
          rw start aligned,
          rw (sym (ap (λ (z : ℕ). z + size_of g) start)) at (rw next at placed),
        ),
      )

-- For a module that `verify` accepted, whose constants do not lead back to themselves, with initializers of kinds
-- that `without_addresses` rebuilds, fuel above their nesting, and globals that with their padding fit 64 bits,
-- `image` does not panic. It places each global once, in turn, at a multiple of its alignment, after the one
-- before, and inside the image.
pub image_lem :
    (l : Llvm) (fuel : ℕ)
    → IsModule l
    → verify l ≡ []
    → IsAcyclic l
    → ((g c : l.Value)
        → Memᴰ g (globals l)
        → l.get_initializer g ≡ some c
        → Cleared l c × (l.nesting c < fuel))
    → room l (globals l) < 2 ^ 64
    → (i : Image l.Value l.Ty) × (image l fuel ≡ some i) × IsPlaced l 0 (globals l) i.offsets i.size
unfolding image IsConstantData
image_lem l fuel laws quiet acyclic clear fits =
    let accepted = (verify_iff l laws).0 quiet in
    place_lem l fuel 0 1 (globals l)
      (λ g m.
        let (c, _, e, _) = accepted.constant_data g m in
        let (cleared, less) = clear g c m e in
        let (made, ends) = without_addresses-total l acyclic fuel c cleared less in
        (c, e, made, ends))
      (omega arith)
