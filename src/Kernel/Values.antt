-- ===== src/Kernel/Values.antt =====
-- `bytes` and `values` of kernel/src/host.rs: what a buffer holds, as values of a plain type. A chunk
-- size of 0 panics.
use llvm_metal.Base.{
  ℕ, zero, suc, ◌*◌, ◌/◌, ◌<◌, ◌≡◌, refl, ◌∙◌, ap, Option, none, some, List, [], ◌∷◌, ◌++◌, arith,
  length, length-append, take, drop, take-append, drop-append, flat_map, ◌==◌, if◌then◌else◌,
}
use native.Mathlib.Nat.{mul-div_cancel_left}
use llvm_metal.Kernel.Plain.{Plain}

module _ {T : Type 0} ⦃plain : Plain T⦄ where
  unfoldable pub bytes : T → List ℕ
  bytes value = plain.to_bytes value

  -- `count` chunks, each of the size of a value.
  unfoldable pub chunks : ℕ → List ℕ → List T
  chunks zero contents = []
  chunks (suc count) contents =
      plain.from_bytes (take plain.size contents) ∷ chunks count (drop plain.size contents)

  unfoldable pub values : List ℕ → Option (List T)
  values contents =
      if plain.size == 0 then none else some (chunks (length contents / plain.size) contents)

  pub length-bytes : (xs : List T) → length (flat_map bytes xs) ≡ plain.size * length xs
  unfolding flat_map bytes
  length-bytes [] = omega arith
  length-bytes (x ∷ xs) =
      omega (
        arith,
        length-append (bytes x) (flat_map bytes xs),
        length-bytes xs,
        plain.length-to_bytes x,
      )

  chunks-bytes : (xs : List T) → chunks (length xs) (flat_map bytes xs) ≡ xs
  unfolding flat_map chunks bytes
  chunks-bytes [] = refl
  chunks-bytes (x ∷ xs) =
      let rest = flat_map bytes xs in
      let size = plain.length-to_bytes x in
      let first : take plain.size (plain.to_bytes x ++ rest) ≡ plain.to_bytes x =
        rw (← size) (take-append (plain.to_bytes x) rest) in
      let others : drop plain.size (plain.to_bytes x ++ rest) ≡ rest =
        rw (← size) (drop-append (plain.to_bytes x) rest) in
      rw (first, others, plain.from_bytes-to_bytes x, chunks-bytes xs) refl

  -- For values of at least one byte, `values` reads back what `bytes` made of each.
  pub values-bytes : (xs : List T) → 0 < plain.size → values (flat_map bytes xs) ≡ some xs
  unfolding values
  values-bytes xs positive =
      let count : length (flat_map bytes xs) / plain.size ≡ length xs =
        ap (λ (z : ℕ). z / plain.size) (length-bytes xs)
        ∙ mul-div_cancel_left (length xs) positive in
      let whole = ap (λ (k : ℕ). chunks k (flat_map bytes xs)) count ∙ chunks-bytes xs in
      ground arith
