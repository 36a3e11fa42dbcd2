-- ===== src/Metallib/Examples.antt =====
-- metallib/src/lib.rs on a name of one letter and four bytes of bitcode.
use llvm_metal.Base.{ℕ, ◌≡◌, ◌↔◌, refl, some, List, [], ◌∷◌, arith, replicate, any, to_le_bytes}
use llvm_metal.Metallib.{
  ok, package_air, tags, raw_magic, container, bad_name, is_bitcode, starts_with, group_size, tag,
  total_size, module_offset, private_offset, public_offset, function_list,
}
use llvm_metal.Metallib.Layout.{IsContainer, package_air-IsContainer}
use llvm_metal.Metallib.Tags.{
  read_tags, written_tags, read_tags-tags, IsPackageable, package_air_iff,
}

-- A digest of the right size.
abbrev no_digest : List ℕ → List ℕ
no_digest bytes = replicate 32 0

abbrev letter : List ℕ
letter = b'k' ∷ []

packaged : package_air no_digest letter raw_magic ≡ ok (container no_digest letter raw_magic)
unfolding package_air bad_name any is_bitcode starts_with group_size tags tag to_le_bytes total_size
    module_offset private_offset public_offset function_list
packaged = refl

package_air-IsContainer_example :
    IsContainer no_digest letter raw_magic (container no_digest letter raw_magic)
package_air-IsContainer_example =
    package_air-IsContainer no_digest letter raw_magic (container no_digest letter raw_magic)
      packaged

read_tags-tags_example :
    read_tags 7 (tags no_digest letter raw_magic)
    ≡ some (written_tags no_digest letter raw_magic refl (omega arith))
read_tags-tags_example = read_tags-tags no_digest letter raw_magic refl (omega arith)

package_air_iff_example :
    (package_air no_digest letter raw_magic ≡ ok (container no_digest letter raw_magic))
    ↔ IsPackageable no_digest letter raw_magic
package_air_iff_example = package_air_iff no_digest letter raw_magic refl
