-- ===== src/Shallenge/Entry/Hashed.antt =====
-- The hashes of examples/shallenge/kernel/src/lib.rs against `digest` of examples/shallenge/src/sha256.rs, for
-- a request that examples/shallenge/src/lib.rs lays out.
use llvm_metal.Base.{
  ℕ, ◌+◌, ◌-◌, ◌*◌, ◌≤◌, ◌<◌, ◌≡◌, sym, ap, ◌∙◌, ◌⊎◌, inl, inr, some, List, ◌∷◌, ◌++◌, arith,
  length, length-append, replicate, flat_map,
}
use mathlib.Core.List.{append_assoc}
use llvm_metal.Shallenge.{Request, Record, hash_at, fill, search}
use llvm_metal.Shallenge.Compress.{compress}
use llvm_metal.Shallenge.Filled.{IsBytes, IsBytes-zeros, IsBytes-append, characters_from, fill_lem}
use llvm_metal.Shallenge.Search.{first_counter, counter_of, tried, unsolved, search_lem}
use llvm_metal.Shallenge.Sha.{words_of, be_bytes, be_bytes_long, digest}
use llvm_metal.Shallenge.Sha.Digest.{short_block, digest-compress}
use llvm_metal.Shallenge.Entry.{request, nonce_text}

-- The block after the nonce, of a message of `total` bytes.
abbrev padding : ℕ → List ℕ
padding total = (0x80 ∷ replicate (55 - total) 0) ++ be_bytes_long (total * 8)

IsBytes-padding : (total : ℕ) → IsBytes (padding total)
IsBytes-padding total =
    IsBytes-append (0x80 ∷ replicate (55 - total) 0) (be_bytes_long (total * 8))
      (omega arith, IsBytes-zeros (55 - total))
      (
        omega arith,
        (
          omega arith,
          (
            omega arith,
            (omega arith, (omega arith, (omega arith, (omega arith, (omega arith, tt))))),
          ),
        ),
      )

-- What `request` makes of a short prefix.
abbrev laid_out : List ℕ → ℕ → ℕ → ℕ → Request
laid_out prefix base salt attempts = record {
  base = base;
  salt = salt;
  block = words_of 16 (prefix ++ (replicate 16 0 ++ padding (length prefix + 16)));
  offset = length prefix;
  attempts = attempts;
}

request-laid_out :
    (prefix : List ℕ) (base salt attempts : ℕ) (asked : Request)
    → request prefix base salt attempts ≡ some asked
    → (length prefix ≤ 32) × (asked ≡ laid_out prefix base salt attempts)
unfolding request
request-laid_out prefix base salt attempts asked e = ground arith

-- The filled block is the padded message.
filled_lem :
    (prefix : List ℕ) (base salt attempts counter : ℕ)
    → length prefix ≤ 32
    → IsBytes prefix
    → fill
        (laid_out prefix base salt attempts)
        counter
        16
        0
        (laid_out prefix base salt attempts).block
      ≡ words_of 16 (
          short_block (prefix ++ characters_from (laid_out prefix base salt attempts) counter 0 16))
unfolding short_block
filled_lem prefix base salt attempts counter short good =
    let asked = laid_out prefix base salt attempts in
    let text = characters_from asked counter 0 16 in
    let total : length (prefix ++ text) ≡ length prefix + 16 = length-append prefix text in
    let whole = append_assoc prefix text (padding (length prefix + 16)) in
    fill_lem asked counter 16 0 prefix (padding (length prefix + 16)) (omega arith) (omega arith)
      good (IsBytes-padding (length prefix + 16))
    ∙ ap (λ (b : List ℕ). words_of 16 b)
        (sym whole ∙ ap (λ (n : ℕ). (prefix ++ text) ++ padding n) (sym total))

-- The hash of every counter, as bytes, is the digest of the prefix and the text of the nonce.
pub hash_at-digest :
    (prefix : List ℕ) (base salt attempts : ℕ) (asked : Request) (found : Record)
    → request prefix base salt attempts ≡ some asked
    → IsBytes prefix
    → flat_map be_bytes (hash_at asked found.counter) ≡ digest (prefix ++ nonce_text asked found)
unfolding hash_at nonce_text
hash_at-digest prefix base salt attempts asked found e good =
    let (short, same) = request-laid_out prefix base salt attempts asked e in
    let made = laid_out prefix base salt attempts in
    let text = characters_from made found.counter 0 16 in
    let size : length (prefix ++ text) < 56 = omega (arith, length-append prefix text) in
    rw same (
      ap (λ (b : List ℕ). flat_map be_bytes (compress b))
        (filled_lem prefix base salt attempts found.counter short good)
      ∙ sym (digest-compress (prefix ++ text) size))

-- For a request laid out for a prefix of bytes, the record that a thread's search returns is the one of all
-- ones that it starts from, or its hash, as bytes, is the SHA-256 of the prefix and the text of its nonce.
pub search-digest :
    (prefix : List ℕ) (base salt attempts thread : ℕ) (asked : Request)
    → request prefix base salt attempts ≡ some asked
    → IsBytes prefix
    → (search asked thread ≡ unsolved (first_counter asked thread))
      ⊎ (flat_map be_bytes (search asked thread).hash
          ≡ digest (prefix ++ nonce_text asked (search asked thread)))
search-digest prefix base salt attempts thread asked e good = elim (search_lem asked thread).found [
  | inl none_smaller ↦ inl none_smaller
  | inr (k, less, same) ↦
      let one = tried asked (counter_of (first_counter asked thread) k) in
      let hashed = hash_at-digest prefix base salt attempts asked one e good in inr (rw same hashed)
]
