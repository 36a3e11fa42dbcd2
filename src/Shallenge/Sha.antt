-- ===== src/Shallenge/Sha.antt =====
-- examples/shallenge/src/sha256.rs: SHA-256 of any message, over bytes, with the schedule of 64 words.
pub mod Schedule
pub mod Digest
mod Examples
use llvm_metal.Base.{
  ℕ, zero, suc, ◌+◌, ◌-◌, ◌*◌, ◌/◌, ◌%◌, ◌^◌, List, [], ◌∷◌, ◌++◌, map, flat_map, length, get_or,
  set, take, drop, replicate, ltb, bit_and, bit_xor, if◌then◌else◌,
}
use llvm_metal.Modular.{complement}
use llvm_metal.Shallenge.Compress.{Working, wrapping_add, rotate_right, xor3}

-- `INITIAL` and `ROUND`
abbrev pub sha_initial : List ℕ
sha_initial =
    0x6a09e667 ∷ 0xbb67ae85 ∷ 0x3c6ef372 ∷ 0xa54ff53a ∷ 0x510e527f ∷ 0x9b05688c ∷ 0x1f83d9ab
    ∷ 0x5be0cd19 ∷ []

abbrev pub sha_rounds : List ℕ
sha_rounds =
    0x428a2f98 ∷ 0x71374491 ∷ 0xb5c0fbcf ∷ 0xe9b5dba5 ∷ 0x3956c25b ∷ 0x59f111f1 ∷ 0x923f82a4
    ∷ 0xab1c5ed5 ∷ 0xd807aa98 ∷ 0x12835b01 ∷ 0x243185be ∷ 0x550c7dc3 ∷ 0x72be5d74 ∷ 0x80deb1fe
    ∷ 0x9bdc06a7 ∷ 0xc19bf174 ∷ 0xe49b69c1 ∷ 0xefbe4786 ∷ 0x0fc19dc6 ∷ 0x240ca1cc ∷ 0x2de92c6f
    ∷ 0x4a7484aa ∷ 0x5cb0a9dc ∷ 0x76f988da ∷ 0x983e5152 ∷ 0xa831c66d ∷ 0xb00327c8 ∷ 0xbf597fc7
    ∷ 0xc6e00bf3 ∷ 0xd5a79147 ∷ 0x06ca6351 ∷ 0x14292967 ∷ 0x27b70a85 ∷ 0x2e1b2138 ∷ 0x4d2c6dfc
    ∷ 0x53380d13 ∷ 0x650a7354 ∷ 0x766a0abb ∷ 0x81c2c92e ∷ 0x92722c85 ∷ 0xa2bfe8a1 ∷ 0xa81a664b
    ∷ 0xc24b8b70 ∷ 0xc76c51a3 ∷ 0xd192e819 ∷ 0xd6990624 ∷ 0xf40e3585 ∷ 0x106aa070 ∷ 0x19a4c116
    ∷ 0x1e376c08 ∷ 0x2748774c ∷ 0x34b0bcb5 ∷ 0x391c0cb3 ∷ 0x4ed8aa4a ∷ 0x5b9cca4f ∷ 0x682e6ff3
    ∷ 0x748f82ee ∷ 0x78a5636f ∷ 0x84c87814 ∷ 0x8cc70208 ∷ 0x90befffa ∷ 0xa4506ceb ∷ 0xbef9a3f7
    ∷ 0xc67178f2 ∷ []

-- `u32::from_be_bytes`
abbrev pub be_word : List ℕ → ℕ
be_word bytes =
    get_or bytes 0 0 * 2 ^ 24
    + get_or bytes 1 0 * 2 ^ 16
    + get_or bytes 2 0 * 2 ^ 8
    + get_or bytes 3 0

-- `u32::to_be_bytes`
abbrev pub be_bytes : ℕ → List ℕ
be_bytes word =
    word / 2 ^ 24 % 2 ^ 8 ∷ word / 2 ^ 16 % 2 ^ 8 ∷ word / 2 ^ 8 % 2 ^ 8 ∷ word % 2 ^ 8 ∷ []

-- The words of `count` chunks of four bytes.
unfoldable pub words_of : ℕ → List ℕ → List ℕ
words_of zero bytes = []
words_of (suc count) bytes = be_word (take 4 bytes) ∷ words_of count (drop 4 bytes)

-- `schedule[i]` of the loop from 16 on
abbrev pub next_word : ℕ → List ℕ → ℕ
next_word i schedule =
    let a = get_or schedule (i - 15) 0 in
    let b = get_or schedule (i - 2) 0 in
    wrapping_add
      (wrapping_add
        (wrapping_add (get_or schedule (i - 16) 0)
          (xor3 (rotate_right a 7) (rotate_right a 18) (a / 2 ^ 3)))
        (get_or schedule (i - 7) 0))
      (xor3 (rotate_right b 17) (rotate_right b 19) (b / 2 ^ 10))

pub extended : ℕ → ℕ → List ℕ → List ℕ
extended i zero schedule = schedule
extended i (suc left) schedule = extended (suc i) left (set schedule i (next_word i schedule))

pub schedule : List ℕ → List ℕ
schedule block = extended 16 48 (words_of 16 block ++ replicate 48 0)

pub sha_mix : ℕ → ℕ → Working → Working
sha_mix constant word s =
    let sum = xor3 (rotate_right s.e 6) (rotate_right s.e 11) (rotate_right s.e 25) in
    let choice = bit_xor (bit_and s.e s.f) (bit_and (complement s.e) s.g) in
    let first =
      wrapping_add (wrapping_add (wrapping_add (wrapping_add s.h sum) choice) constant) word in
    let majority = xor3 (bit_and s.a s.b) (bit_and s.a s.c) (bit_and s.b s.c) in
    let second =
      wrapping_add (xor3 (rotate_right s.a 2) (rotate_right s.a 13) (rotate_right s.a 22))
        majority in
    record {
      a = wrapping_add first second;
      b = s.a;
      c = s.b;
      d = s.c;
      e = wrapping_add s.d first;
      f = s.e;
      g = s.f;
      h = s.g;
    }

-- The rounds along the constants, from round i on.
pub sha_mixed : List ℕ → ℕ → List ℕ → Working → Working
sha_mixed [] i w s = s
sha_mixed (k ∷ ks) i w s = sha_mixed ks (suc i) w (sha_mix k (get_or w i 0) s)

-- `compress` of sha256.rs
pub sha_compress : List ℕ → List ℕ → List ℕ
sha_compress state block =
    let start : Working = record {
      a = get_or state 0 0;
      b = get_or state 1 0;
      c = get_or state 2 0;
      d = get_or state 3 0;
      e = get_or state 4 0;
      f = get_or state 5 0;
      g = get_or state 6 0;
      h = get_or state 7 0;
    } in
    let s = sha_mixed sha_rounds 0 (schedule block) start in
    wrapping_add (get_or state 0 0) s.a
    ∷ wrapping_add (get_or state 1 0) s.b
    ∷ wrapping_add (get_or state 2 0) s.c
    ∷ wrapping_add (get_or state 3 0) s.d
    ∷ wrapping_add (get_or state 4 0) s.e
    ∷ wrapping_add (get_or state 5 0) s.f
    ∷ wrapping_add (get_or state 6 0) s.g
    ∷ wrapping_add (get_or state 7 0) s.h
    ∷ []

-- The loops over blocks of 64 bytes.
pub over_blocks : ℕ → List ℕ → List ℕ → List ℕ
over_blocks zero bytes state = state
over_blocks (suc count) bytes state =
    over_blocks count (drop 64 bytes) (sha_compress state (take 64 bytes))

-- `u64::to_be_bytes`
abbrev pub be_bytes_long : ℕ → List ℕ
be_bytes_long n = be_bytes (n / 2 ^ 32 % 2 ^ 32) ++ be_bytes (n % 2 ^ 32)

-- `end` of `digest`
abbrev pub padded_end : ℕ → ℕ
padded_end tail = if ltb tail 56 then 64 else 128

-- `padded[..end]`: the tail, the marker, zeros, and the bit length, which wraps at 64 bits.
pub padded : List ℕ → ℕ → List ℕ
padded tail total =
    let end = padded_end (length tail) in
    let bytes = tail ++ (0x80 ∷ replicate (127 - length tail) 0) in
    take (end - 8) bytes ++ be_bytes_long (total * 8 % 2 ^ 64)

pub digest : List ℕ → List ℕ
digest message =
    let whole = length message / 64 in
    let tail = drop (64 * whole) message in
    let first = over_blocks whole message sha_initial in
    let end = padded_end (length tail) in
    flat_map be_bytes (over_blocks (end / 64) (padded tail (length message)) first)
