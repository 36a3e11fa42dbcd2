-- ===== src/Metallib.antt =====
-- metallib/src/lib.rs: the Metal library container around one kernel's bitcode. A byte string is a
-- list of numbers below 256. SHA-256 is the `sha2` crate's, and so a parameter.
mod Examples
pub mod Tags
pub mod Layout
use Prim.Native.String.{String}
use llvm_metal.Base.{
  ℕ, zero, suc, ◌+◌, ◌-◌, ◌%◌, ◌^◌, Bool, true, false, not, ◌&&◌, ◌||◌, List, [], ◌∷◌, ◌++◌, length,
  any, replicate, ◌==◌, leb, if◌then◌else◌, to_le_bytes, flat_map,
}

pub data Packaged : Type 0 where
  ok : List ℕ → Packaged
  err : String → Packaged

pub starts_with : List ℕ → List ℕ → Bool
starts_with bytes [] = true
starts_with [] (p ∷ ps) = false
starts_with (b ∷ bs) (p ∷ ps) = b == p && starts_with bs ps

abbrev pub mtlb : List ℕ
mtlb = b'M' ∷ b'T' ∷ b'L' ∷ b'B' ∷ []

abbrev pub name_tag : List ℕ
name_tag = b'N' ∷ b'A' ∷ b'M' ∷ b'E' ∷ []

abbrev pub type_tag : List ℕ
type_tag = b'T' ∷ b'Y' ∷ b'P' ∷ b'E' ∷ []

abbrev pub hash_tag : List ℕ
hash_tag = b'H' ∷ b'A' ∷ b'S' ∷ b'H' ∷ []

abbrev pub offt_tag : List ℕ
offt_tag = b'O' ∷ b'F' ∷ b'F' ∷ b'T' ∷ []

abbrev pub vers_tag : List ℕ
vers_tag = b'V' ∷ b'E' ∷ b'R' ∷ b'S' ∷ []

abbrev pub mdsz_tag : List ℕ
mdsz_tag = b'M' ∷ b'D' ∷ b'S' ∷ b'Z' ∷ []

abbrev pub endt : List ℕ
endt = b'E' ∷ b'N' ∷ b'D' ∷ b'T' ∷ []

abbrev pub raw_magic : List ℕ
raw_magic = b'B' ∷ b'C' ∷ 0xc0 ∷ 0xde ∷ []

abbrev pub wrapped_magic : List ℕ
wrapped_magic = 0xde ∷ 0xc0 ∷ 0x17 ∷ 0x0b ∷ []

-- The bytes that `tag` appends: the name, the length as a `u16`, and the bytes of the tag.
unfoldable pub tag : List ℕ → List ℕ → List ℕ
tag name content = name ++ (to_le_bytes 2 (length content % 2 ^ 16) ++ content)

-- The first check of `package`.
pub bad_name : List ℕ → Bool
bad_name name = length name == 0 || leb 65535 (length name) || any (λ b. b == 0) name

-- The second check.
pub is_bitcode : List ℕ → Bool
is_bitcode air = starts_with air raw_magic || starts_with air wrapped_magic

-- The public and the private section, of eight bytes each.
unfoldable pub empty_section : List ℕ
empty_section = to_le_bytes 4 8 ++ endt

module _ (digest : List ℕ → List ℕ) where
  -- The tags of the one function.
  unfoldable pub tags : List ℕ → List ℕ → List ℕ
  tags name air =
      tag name_tag (name ++ 0 ∷ [])
      ++ (tag type_tag (2 ∷ [])
          ++ (tag hash_tag (digest air)
              ++ (tag offt_tag (replicate 24 0)
                  ++ (tag vers_tag (2 ∷ 0 ∷ 4 ∷ 0 ∷ 3 ∷ 0 ∷ 0 ∷ 0 ∷ [])
                      ++ (tag mdsz_tag (to_le_bytes 8 (length air)) ++ endt)))))

  unfoldable pub group_size : List ℕ → List ℕ → ℕ
  group_size name air = length (tags name air) + 4

  -- The function list: one function, and the size of its group.
  unfoldable pub function_list : List ℕ → List ℕ → List ℕ
  function_list name air = to_le_bytes 4 1 ++ (to_le_bytes 4 (group_size name air) ++ tags name air)

  unfoldable pub public_offset : List ℕ → List ℕ → ℕ
  public_offset name air = 88 + length (function_list name air) + 4

  unfoldable pub private_offset : List ℕ → List ℕ → ℕ
  private_offset name air = public_offset name air + 8

  unfoldable pub module_offset : List ℕ → List ℕ → ℕ
  module_offset name air = private_offset name air + 8

  unfoldable pub total_size : List ℕ → List ℕ → ℕ
  total_size name air = module_offset name air + length air

  -- The nine `u64` of the header.
  unfoldable pub header_values : List ℕ → List ℕ → List ℕ
  header_values name air =
      total_size name air
      ∷ 88
      ∷ (length (function_list name air) - 4)
      ∷ public_offset name air
      ∷ 8
      ∷ private_offset name air
      ∷ 8
      ∷ module_offset name air
      ∷ length air
      ∷ []

  unfoldable pub header : List ℕ → List ℕ → List ℕ
  header name air =
      mtlb
      ++ (flat_map (to_le_bytes 2) (0x8001 ∷ 2 ∷ 4 ∷ [])
          ++ (replicate 6 0 ++ flat_map (to_le_bytes 8) (header_values name air)))

  unfoldable pub container : List ℕ → List ℕ → List ℕ
  container name air =
      header name air
      ++ (function_list name air ++ (endt ++ (empty_section ++ (empty_section ++ air))))

  pub package_air : List ℕ → List ℕ → Packaged
  package_air name air =
      if bad_name name
      then err "entry name must be nonempty, NUL-free and fit a u16 tag"
      else if not (is_bitcode air)
      then err "AIR must be raw or wrapped LLVM bitcode"
      else if leb (2 ^ 32) (group_size name air)
      then err "function tag group too large"
      else if leb (2 ^ 64) (total_size name air)
      then err "library too large"
      else ok (container name air)
