-- ===== src/Shallenge/Compress.antt =====
-- `compress` of examples/shallenge/kernel/src/compress.rs: SHA-256 of one padded block.
use llvm_metal.Base.{
  ℕ, suc, ◌+◌, ◌-◌, ◌*◌, ◌/◌, ◌%◌, ◌^◌, List, [], ◌∷◌, get_or, set, ltb, bit_and, bit_or, bit_xor,
  if◌then◌else◌,
}
use llvm_metal.Modular.{complement}

abbrev pub initial : List ℕ
initial =
    0x6a09e667 ∷ 0xbb67ae85 ∷ 0x3c6ef372 ∷ 0xa54ff53a ∷ 0x510e527f ∷ 0x9b05688c ∷ 0x1f83d9ab
    ∷ 0x5be0cd19 ∷ []

abbrev pub round_constants : List ℕ
round_constants =
    0x428a2f98 ∷ 0x71374491 ∷ 0xb5c0fbcf ∷ 0xe9b5dba5 ∷ 0x3956c25b ∷ 0x59f111f1 ∷ 0x923f82a4
    ∷ 0xab1c5ed5 ∷ 0xd807aa98 ∷ 0x12835b01 ∷ 0x243185be ∷ 0x550c7dc3 ∷ 0x72be5d74 ∷ 0x80deb1fe
    ∷ 0x9bdc06a7 ∷ 0xc19bf174 ∷ 0xe49b69c1 ∷ 0xefbe4786 ∷ 0x0fc19dc6 ∷ 0x240ca1cc ∷ 0x2de92c6f
    ∷ 0x4a7484aa ∷ 0x5cb0a9dc ∷ 0x76f988da ∷ 0x983e5152 ∷ 0xa831c66d ∷ 0xb00327c8 ∷ 0xbf597fc7
    ∷ 0xc6e00bf3 ∷ 0xd5a79147 ∷ 0x06ca6351 ∷ 0x14292967 ∷ 0x27b70a85 ∷ 0x2e1b2138 ∷ 0x4d2c6dfc
    ∷ 0x53380d13 ∷ 0x650a7354 ∷ 0x766a0abb ∷ 0x81c2c92e ∷ 0x92722c85 ∷ 0xa2bfe8a1 ∷ 0xa81a664b
    ∷ 0xc24b8b70 ∷ 0xc76c51a3 ∷ 0xd192e819 ∷ 0xd6990624 ∷ 0xf40e3585 ∷ 0x106aa070 ∷ 0x19a4c116
    ∷ 0x1e376c08 ∷ 0x2748774c ∷ 0x34b0bcb5 ∷ 0x391c0cb3 ∷ 0x4ed8aa4a ∷ 0x5b9cca4f ∷ 0x682e6ff3
    ∷ 0x748f82ee ∷ 0x78a5636f ∷ 0x84c87814 ∷ 0x8cc70208 ∷ 0x90befffa ∷ 0xa4506ceb ∷ 0xbef9a3f7
    ∷ 0xc67178f2 ∷ []

abbrev pub wrapping_add : ℕ → ℕ → ℕ
wrapping_add a b = (a + b) % 2 ^ 32

abbrev pub rotate_right : ℕ → ℕ → ℕ
rotate_right x k = bit_or (x / 2 ^ k) (x * 2 ^ (32 - k) % 2 ^ 32)

abbrev pub xor3 : ℕ → ℕ → ℕ → ℕ
xor3 a b c = bit_xor (bit_xor a b) c

-- The eight working variables.
pub record Working : Type 0 where
  pub a : ℕ
  pub b : ℕ
  pub c : ℕ
  pub d : ℕ
  pub e : ℕ
  pub f : ℕ
  pub g : ℕ
  pub h : ℕ

-- The word that round i, of 16 or more, puts over word i - 16.
unfoldable pub scheduled : ℕ → List ℕ → List ℕ
scheduled i w =
    let x = get_or w ((i + 1) % 16) 0 in
    let y = get_or w ((i + 14) % 16) 0 in
    let first =
      wrapping_add (get_or w (i % 16) 0)
        (xor3 (rotate_right x 7) (rotate_right x 18) (x / 2 ^ 3)) in
    let second = wrapping_add first (get_or w ((i + 9) % 16) 0) in
    let word = wrapping_add second (xor3 (rotate_right y 17) (rotate_right y 19) (y / 2 ^ 10)) in
    if ltb i 16 then w else set w (i % 16) word

unfoldable pub mix : ℕ → ℕ → Working → Working
mix constant word s =
    let sum = xor3 (rotate_right s.e 6) (rotate_right s.e 11) (rotate_right s.e 25) in
    let choice = bit_xor (bit_and s.e s.f) (bit_and (complement s.e) s.g) in
    let first =
      wrapping_add (wrapping_add (wrapping_add (wrapping_add s.h sum) choice) constant) word in
    let majority = xor3 (bit_and s.a s.b) (bit_and s.a s.c) (bit_and s.b s.c) in
    let second =
      wrapping_add (xor3 (rotate_right s.a 2) (rotate_right s.a 13) (rotate_right s.a 22))
        majority in
    record {
      a = wrapping_add first second;
      b = s.a;
      c = s.b;
      d = s.c;
      e = wrapping_add s.d first;
      f = s.e;
      g = s.f;
      h = s.g;
    }

-- The rounds along the constants, from round i on.
unfoldable pub mixed : List ℕ → ℕ → List ℕ → Working → Working
mixed [] i w s = s
mixed (k ∷ ks) i w s =
    let w' = scheduled i w in mixed ks (suc i) w' (mix k (get_or w' (i % 16) 0) s)

unfoldable pub compress : List ℕ → List ℕ
compress block =
    let start : Working = record {
      a = 0x6a09e667;
      b = 0xbb67ae85;
      c = 0x3c6ef372;
      d = 0xa54ff53a;
      e = 0x510e527f;
      f = 0x9b05688c;
      g = 0x1f83d9ab;
      h = 0x5be0cd19;
    } in
    let s = mixed round_constants 0 block start in
    wrapping_add 0x6a09e667 s.a
    ∷ wrapping_add 0xbb67ae85 s.b
    ∷ wrapping_add 0x3c6ef372 s.c
    ∷ wrapping_add 0xa54ff53a s.d
    ∷ wrapping_add 0x510e527f s.e
    ∷ wrapping_add 0x9b05688c s.f
    ∷ wrapping_add 0x1f83d9ab s.g
    ∷ wrapping_add 0x5be0cd19 s.h
    ∷ []
