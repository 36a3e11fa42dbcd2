-- ===== src/Shallenge/Examples.antt =====
-- examples/shallenge/kernel/src on the empty message, and on one request.
use llvm_metal.Base.{◌≡◌, refl, [], ◌∷◌, replicate}
use llvm_metal.Shallenge.Compress.{compress, mixed, mix, scheduled}
use llvm_metal.Shallenge.{Request, search}
use llvm_metal.Shallenge.Search.{IsSmallest, first_counter, search_lem}

-- The hash of the empty message, padded.
empty_hash :
    compress (0x80000000 ∷ 0 ∷ 0 ∷ 0 ∷ 0 ∷ 0 ∷ 0 ∷ 0 ∷ 0 ∷ 0 ∷ 0 ∷ 0 ∷ 0 ∷ 0 ∷ 0 ∷ 0 ∷ [])
    ≡ 0xe3b0c442 ∷ 0x98fc1c14 ∷ 0x9afbf4c8 ∷ 0x996fb924 ∷ 0x27ae41e4 ∷ 0x649b934c ∷ 0xa495991b
      ∷ 0x7852b855 ∷ []
unfolding compress mixed mix scheduled
empty_hash = refl

abbrev request : Request
request = record { base = 7; salt = 0; block = replicate 16 0; offset = 0; attempts = 2 }

search_lem_example : IsSmallest request (first_counter request 3) 2 (search request 3)
search_lem_example = search_lem request 3
