-- ===== src/Shallenge/Entry/Examples.antt =====
-- `on_host` of examples/shallenge/src/lib.rs with three threads, for requests and records of one byte, and a
-- search with the prefix "ab".
use llvm_metal.Base.{
  ℕ, ◌≡◌, ◌⊎◌, refl, some, List, [], ◌∷◌, ◌++◌, map, flat_map, range, replicate, arith,
}
use llvm_metal.Kernel.Examples.{one_byte}
use llvm_metal.Shallenge.{Request, Record, search}
use llvm_metal.Shallenge.Search.{first_counter, unsolved}
use llvm_metal.Shallenge.Sha.{words_of, be_bytes, be_bytes_long, digest}
use llvm_metal.Shallenge.Entry.{request, nonce_text, search_on_host}
use llvm_metal.Shallenge.Entry.Launched.{search_on_host_lem}
use llvm_metal.Shallenge.Entry.Hashed.{search-digest}

abbrev request_of : ℕ → Request
request_of base = record { base = base; salt = 1; block = replicate 16 0; offset = 4; attempts = 2 }

abbrev low_counter : Record → ℕ
low_counter found = found.counter

search_on_host_lem_example :
    search_on_host ⦃plain_request = one_byte⦄ ⦃plain_record = one_byte⦄ request_of low_counter 5 3
    ≡ some (map (λ thread. (search (request_of 5) thread).counter) (range 3))
search_on_host_lem_example =
    search_on_host_lem ⦃plain_request = one_byte⦄ ⦃plain_record = one_byte⦄ request_of low_counter 5
      3 (omega arith) (omega arith) (omega arith) (omega arith)

abbrev prefix : List ℕ
prefix = 97 ∷ 98 ∷ []

abbrev asked : Request
asked = record {
  base = 7;
  salt = 1;
  block = words_of 16 (prefix ++ (replicate 16 0 ++ (0x80 ∷ replicate 37 0 ++ be_bytes_long 144)));
  offset = 2;
  attempts = 5;
}

request-asked : request prefix 7 1 5 ≡ some asked
unfolding request
request-asked = refl

search-digest_example :
    (search asked 3 ≡ unsolved (first_counter asked 3))
    ⊎ (flat_map be_bytes (search asked 3).hash
        ≡ digest (prefix ++ nonce_text asked (search asked 3)))
search-digest_example =
    search-digest prefix 7 1 5 3 asked request-asked (omega arith, (omega arith, tt))
