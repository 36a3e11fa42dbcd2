-- ===== src/Shallenge/Sha/Examples.antt =====
-- examples/shallenge/src/sha256.rs on the message `abc`.
use llvm_metal.Base.{ℕ, ◌≡◌, List, [], ◌∷◌, flat_map, arith}
use llvm_metal.Shallenge.Compress.{compress}
use llvm_metal.Shallenge.Sha.{words_of, be_bytes, digest}
use llvm_metal.Shallenge.Sha.Digest.{short_block, digest-compress}

abbrev message : List ℕ
message = b'a' ∷ b'b' ∷ b'c' ∷ []

digest-compress_example :
    digest message ≡ flat_map be_bytes (compress (words_of 16 (short_block message)))
digest-compress_example = digest-compress message (omega arith)
