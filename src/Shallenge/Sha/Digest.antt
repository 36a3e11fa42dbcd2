-- ===== src/Shallenge/Sha/Digest.antt =====
-- `compress` and `digest` of examples/shallenge/src/sha256.rs against the kernel's `compress`.
use llvm_metal.Base.{
  ◌*◌, [], ◌+◌, ◌∷◌, suc, zero, ◌-◌, ◌%◌, ◌^◌, ◌++◌, replicate, length-append, length-replicate,
  sym, ◌∙◌, ℕ, ◌/◌, ◌<◌, ◌≡◌, refl, ap, List, flat_map, length, take, lt→ltb, arith,
}
use mathlib.Core.List.{append_assoc}
use llvm_metal.Shallenge.Compress.{Working, round_constants, compress}
use llvm_metal.Shallenge.Sha.{
  sha_initial, words_of, be_bytes, be_bytes_long, schedule, sha_compress, over_blocks, padded,
  digest,
}
use llvm_metal.Shallenge.Sha.Schedule.{mixed_lem, schedule-IsExtended}

abbrev first_state : Working
first_state = record {
  a = 0x6a09e667;
  b = 0xbb67ae85;
  c = 0x3c6ef372;
  d = 0xa54ff53a;
  e = 0x510e527f;
  f = 0x9b05688c;
  g = 0x1f83d9ab;
  h = 0x5be0cd19;
}

-- From the initial state the host's `compress` of a block is the kernel's of the block's words.
pub sha_compress_lem :
    (block : List ℕ) → sha_compress sha_initial block ≡ compress (words_of 16 block)
unfolding sha_compress compress
sha_compress_lem block =
    let (ext, window) = schedule-IsExtended block in
    let same =
      mixed_lem round_constants 0 64 (words_of 16 block) (schedule block) first_state (omega arith)
        (omega arith) ext window in
    sym (rw same refl)

take-past : (xs ys : List ℕ) (k : ℕ) → take (length xs + k) (xs ++ ys) ≡ xs ++ take k ys
take-past [] ys k = let e : 0 + k ≡ k = omega arith in ap (λ (j : ℕ). take j ys) e
take-past (x ∷ xs) ys k =
    let e : suc (length xs) + k ≡ suc (length xs + k) = omega arith in
    ap (λ (j : ℕ). take j (x ∷ (xs ++ ys))) e ∙ ap (λ (r : List ℕ). x ∷ r) (take-past xs ys k)

take-replicate : (k more : ℕ) → take {A = ℕ} k (replicate (k + more) 0) ≡ replicate k 0
take-replicate zero more = refl
take-replicate (suc k) more =
    let e : suc k + more ≡ suc (k + more) = omega arith in
    ap (λ (j : ℕ). take (suc k) (replicate j 0)) e
    ∙ ap (λ (r : List ℕ). 0 ∷ r) (take-replicate k more)

-- The one block of a short message: the message, the marker, zeros, and the length in bits.
unfoldable pub short_block : List ℕ → List ℕ
short_block message =
    message ++ ((0x80 ∷ replicate (55 - length message) 0) ++ be_bytes_long (length message * 8))

padded_lem :
    (message : List ℕ)
    → length message < 56
    → take 64 (padded message (length message)) ≡ short_block message
unfolding padded short_block
padded_lem message short =
    let rest = 55 - length message in
    let zeros : List ℕ = 0x80 ∷ replicate (127 - length message) 0 in
    let bits = be_bytes_long (length message * 8) in
    let marker : List ℕ = 0x80 ∷ replicate rest 0 in
    let one = lt→ltb (length message) 56 short in
    let small : length message * 8 % 2 ^ 64 ≡ length message * 8 = omega arith in
    let cut : 64 - 8 ≡ length message + suc rest = omega arith in
    let long : 127 - length message ≡ rest + 72 = omega arith in
    let first : take (64 - 8) (message ++ zeros) ≡ message ++ marker =
      ap (λ (k : ℕ). take k (message ++ zeros)) cut
      ∙ take-past message zeros (suc rest)
      ∙ ap (λ (r : List ℕ). message ++ (0x80 ∷ r))
          (ap (λ (k : ℕ). take rest (replicate k 0)) long ∙ take-replicate rest 72) in
    let head : length (message ++ marker) + 8 ≡ 64 =
      omega (arith, length-append message marker, length-replicate {A = ℕ} rest 0) in
    let whole : take 64 ((message ++ marker) ++ bits) ≡ (message ++ marker) ++ bits =
      ap (λ (k : ℕ). take k ((message ++ marker) ++ bits)) (sym head)
      ∙ take-past (message ++ marker) bits 8 in
    rw (one, small, first) (whole ∙ append_assoc message marker bits)

-- A message of fewer than 56 bytes is one block: its digest is what the kernel's `compress` makes of the words
-- of the message, the marker 0x80, zeros and the length in bits, as big-endian bytes.
pub digest-compress :
    (message : List ℕ)
    → length message < 56
    → digest message ≡ flat_map be_bytes (compress (words_of 16 (short_block message)))
unfolding digest over_blocks
digest-compress message short =
    let none_whole : length message / 64 ≡ 0 = omega arith in
    let one = lt→ltb (length message) 56 short in
    rw (none_whole, one)
      (ap (λ (r : List ℕ). flat_map be_bytes r)
        (sha_compress_lem (take 64 (padded message (length message)))
          ∙ ap (λ (b : List ℕ). compress (words_of 16 b)) (padded_lem message short)))
