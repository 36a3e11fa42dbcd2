-- ===== src/Metallib/Layout.antt =====
-- The sections of the container that metallib/src/lib.rs writes, found again through its header.
use llvm_metal.Base.{
  ℕ, ◌+◌, ◌^◌, ◌<◌, ◌≤◌, ◌≡◌, refl, sym, ◌∙◌, ap, List, [], ◌∷◌, ◌++◌, arith, length, length-append,
  slice, slice-append, from_le_bytes, to_le_bytes, from_le_bytes-to_le_bytes, flat_map, map, get_or,
  ap₂,
}
use mathlib.Core.List.{append_assoc, append-nil}
use llvm_metal.Metallib.{
  ok, package_air, container, header, function_list, empty_section, endt, total_size, module_offset,
  private_offset, public_offset, header_values,
}

-- A little-endian `u64` at a place in the file.
abbrev pub read64 : ℕ → List ℕ → ℕ
read64 at_byte out = from_le_bytes (slice at_byte 8 out)

-- Where the header's `u64` fields stand.
abbrev field_places : List ℕ
field_places = 16 ∷ 24 ∷ 32 ∷ 40 ∷ 48 ∷ 56 ∷ 64 ∷ 72 ∷ 80 ∷ []

abbrev AllBelow : ℕ → List ℕ → Type 0
AllBelow n [] = Unit
AllBelow n (v ∷ vs) = (v < n) × AllBelow n vs

map-read-written :
    (vs : List ℕ) → AllBelow (2 ^ 64) vs → map (λ v. from_le_bytes (to_le_bytes 8 v)) vs ≡ vs
map-read-written [] h = refl
map-read-written (v ∷ vs) (h, hs) =
    ap₂ ◌∷◌ (from_le_bytes-to_le_bytes 8 v h) (map-read-written vs hs)

module _ (digest : List ℕ → List ℕ) (name air : List ℕ) where
  -- A reader that follows the offsets and sizes in the header of `out` finds each section.
  pub record IsContainer (out : List ℕ) : Type 0 where
    pub file_size : read64 16 out ≡ length out
    pub function_section :
        slice (read64 24 out) (read64 32 out + 4) out ≡ function_list digest name air
    pub public_section : slice (read64 40 out) (read64 48 out) out ≡ empty_section
    pub private_section : slice (read64 56 out) (read64 64 out) out ≡ empty_section
    pub module_section : slice (read64 72 out) (read64 80 out) out ≡ air

  length-header : length (header digest name air) ≡ 88
  unfolding header header_values to_le_bytes flat_map
  length-header = refl

  length-container : length (container digest name air) ≡ total_size digest name air
  unfolding container total_size module_offset private_offset public_offset empty_section
      to_le_bytes
  length-container = omega (
    arith,
    length-header,
    length-append (header digest name air)
        (function_list digest name air ++ (endt ++ (empty_section ++ (empty_section ++ air)))),
    length-append (function_list digest name air)
        (endt ++ (empty_section ++ (empty_section ++ air))),
  )

  -- A part of the container behind the header.
  section :
      (before part after : List ℕ) (from count : ℕ)
      → container digest name air ≡ header digest name air ++ (before ++ (part ++ after))
      → 88 + length before ≡ from
      → length part ≡ count
      → slice from count (container digest name air) ≡ part
  section before part after from count e f g =
      rw (e, ← append_assoc (header digest name air) before (part ++ after))
        (slice-append (header digest name air ++ before) part after from count
          (omega (arith, length-header, length-append (header digest name air) before)) g)

  length-function_list : 4 ≤ length (function_list digest name air)
  unfolding function_list to_le_bytes
  length-function_list = omega arith

  -- The nine header fields read back as they were written, below 2 ^ 64.
  module _ (fits : total_size digest name air < 2 ^ 64) where
    header_fields :
        map (λ at_byte. read64 at_byte (container digest name air)) field_places
        ≡ header_values digest name air
    unfolding container header header_values to_le_bytes flat_map total_size module_offset
        private_offset public_offset
    header_fields = map-read-written (header_values digest name air) (omega arith)

    field :
        (i : ℕ)
        → get_or (map (λ at_byte. read64 at_byte (container digest name air)) field_places) i 0
          ≡ get_or (header_values digest name air) i 0
    field i = ap (λ vs. get_or vs i 0) header_fields

    -- The sections one by one, each with what stands before it.
    IsContainer-container : IsContainer (container digest name air)
    unfolding container header_values public_offset private_offset module_offset empty_section
        to_le_bytes
    IsContainer-container =
        let head = header digest name air in
        let list = function_list digest name air in
        let to_public = list ++ endt in
        let to_private = list ++ (endt ++ empty_section) in
        let to_module = list ++ (endt ++ (empty_section ++ empty_section)) in
        let size = length-function_list in
        record {
          file_size = field 0 ∙ sym length-container;
          function_section =
              rw (field 1, field 2)
                (slice-append head list (endt ++ (empty_section ++ (empty_section ++ air))) 88 _
                  length-header (omega arith));
          public_section =
              rw (field 3, field 4)
                (section to_public empty_section (empty_section ++ air) _ _ (simp append_assoc)
                  (omega (arith, length-append list endt)) refl);
          private_section =
              rw (field 5, field 6)
                (section to_private empty_section air _ _ (simp append_assoc)
                  (omega (arith, length-append list (endt ++ empty_section))) refl);
          module_section =
              rw (field 7, field 8)
                (section to_module air [] _ _ (simp (append_assoc, append-nil))
                  (omega (arith, length-append list (endt ++ (empty_section ++ empty_section))))
                  refl);
        }

-- A reader that follows the header of a container that `package` returns finds each section: the
-- file's size, the function list, the two empty sections and the bitcode as it was given.
pub package_air-IsContainer :
    (digest : List ℕ → List ℕ) (name air out : List ℕ)
    → package_air digest name air ≡ ok out
    → IsContainer digest name air out
unfolding package_air
package_air-IsContainer digest name air out h =
    let fits : total_size digest name air < 2 ^ 64 = ground arith in
    let e : container digest name air ≡ out = ground arith in
    rw (← e) (IsContainer-container digest name air fits)
