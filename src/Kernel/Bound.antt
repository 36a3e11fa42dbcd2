-- ===== src/Kernel/Bound.antt =====
-- Reads of buffers that the host of kernel/src/host.rs made of values: `read` and `get` of kernel/src/lib.rs give
-- the values back.
use llvm_metal.Base.{
  ℕ, suc, ◌+◌, ◌*◌, ◌/◌, ◌^◌, ◌<◌, ◌≡◌, refl, sym, ◌∙◌, ap, some, List, [], ◌∷◌, map, range_from,
  flat_map, get_elem?, length, get_or, lt→ltb, arith, slice,
}
use native.Mathlib.Nat.{mul-div_cancel_left}
use llvm_metal.Kernel.Plain.{Plain}
use llvm_metal.Kernel.Host.{Host}
use llvm_metal.Kernel.Handles.{read, get}
use llvm_metal.Kernel.Reads.{read_lem, get_lem}
use llvm_metal.Kernel.Values.{bytes, length-bytes}
use llvm_metal.Kernel.Launches.{element-bytes}

-- Reading a list by index gives the list.
pub map-get_or :
    {A B : Type 0} (f : A → B) (before xs : List A) (d : A) (first : ℕ)
    → ((j : ℕ) → get_or before (first + j) d ≡ get_or xs j d)
    → map (λ j. f (get_or before j d)) (range_from first (length xs)) ≡ map f xs
map-get_or f before [] d first h = refl
map-get_or {A} {B} f before (x ∷ xs) d first h =
    let here : get_or before first d ≡ x =
      let e : first + 0 ≡ first = omega arith in ap (λ (k : ℕ). get_or before k d) (sym e) ∙ h 0 in
    let rest = map-get_or f before xs d (suc first) (λ j.
      let e : suc first + j ≡ first + suc j = omega arith in
      ap (λ (k : ℕ). get_or before k d) e ∙ h (suc j)) in
    rw (here, rest) refl

take-whole : (xs : List ℕ) → slice 0 (length xs) xs ≡ xs
take-whole [] = refl
take-whole (x ∷ xs) = ap (λ (r : List ℕ). x ∷ r) (take-whole xs)

module _ {T : Type 0} ⦃plain : Plain T⦄ (slot : ℕ) (h : Host) where
  pub read-bytes :
      (value : T)
      → get_elem? h.buffers slot ≡ some (bytes value)
      → plain.size < 2 ^ 64
      → read {T = T} slot h ≡ some (some value, h)
  unfolding bytes
  read-bytes value e small =
      let size = plain.length-to_bytes value in
      read_lem slot h (bytes value) e (omega (arith, size)) {T = T}
      ∙ ground (arith, size, take-whole (plain.to_bytes value), plain.from_bytes-to_bytes value)

  pub get-bytes :
      (xs : List T) (index : ℕ) (d : T)
      → get_elem? h.buffers slot ≡ some (flat_map bytes xs)
      → 0 < plain.size
      → length xs * plain.size < 2 ^ 64
      → index < length xs
      → get {T = T} slot index h ≡ some (some (get_or xs index d), h)
  unfolding bytes
  get-bytes xs index d e positive small below =
      let total = length-bytes xs in
      let count : length (flat_map (bytes {T = T}) xs) / plain.size ≡ length xs =
        ap (λ (z : ℕ). z / plain.size) total ∙ mul-div_cancel_left (length xs) positive in
      get_lem slot h (flat_map bytes xs) e (omega (arith, total, small)) {T = T} index positive
      ∙ rw (count, lt→ltb _ _ below, element-bytes xs index d below) refl
