-- ===== src/Shallenge.antt =====
-- examples/shallenge/kernel/src/compress.rs and lib.rs: SHA-256 of one block, and the search of one
-- thread for the nonce with the smallest hash. Masks `& 15` and `& 63` are `% 16` and `% 64`.
pub mod Compress
pub mod Smaller
pub mod Filled
pub mod Search
pub mod Sha
pub mod Entry
mod Examples
use llvm_metal.Base.{
  ℕ, zero, suc, ◌+◌, ◌-◌, ◌*◌, ◌/◌, ◌%◌, ◌^◌, Bool, true, false, List, [], ◌∷◌, get_or, set, ltb,
  leb, ◌==◌, bit_and, bit_or, if◌then◌else◌,
}
use llvm_metal.Modular.{wrapping_neg, select_limbs}
use llvm_metal.Shallenge.Compress.{compress}

abbrev pub nonce : ℕ
nonce = 16

pub record Request : Type 0 where
  pub base : ℕ
  pub salt : ℕ
  pub block : List ℕ
  pub offset : ℕ
  pub attempts : ℕ

pub record Record : Type 0 where
  pub hash : List ℕ
  pub counter : ℕ

-- `bool as u32`
abbrev pub bit : Bool → ℕ
bit b = if b then 1 else 0

-- `step` of `character`
abbrev pub run : ℕ → ℕ → ℕ → ℕ
run v from by = bit (leb from v) * by % 2 ^ 32

-- The text of six bits.
pub base64 : ℕ → ℕ
base64 v =
    let lower = (v + b'A' + run v 26 6) % 2 ^ 32 in
    let digit = (lower + 2 ^ 32 - run v 52 75) % 2 ^ 32 in
    let plus = (digit + 2 ^ 32 - run v 62 15) % 2 ^ 32 in (plus + run v 63 3) % 2 ^ 32

pub character : ℕ → ℕ → ℕ → ℕ
character counter salt i =
    let at = 6 * i in
    let low = if ltb at 64 then counter / 2 ^ at else 0 in
    let high =
      if leb 64 at then salt / 2 ^ (at - 64) else salt * 2 % 2 ^ 64 * 2 ^ (63 - at) % 2 ^ 64 in
    base64 (bit_or low high % 2 ^ 32 % 64)

-- The loop that writes the nonce into the block, from character i on.
pub fill : Request → ℕ → ℕ → ℕ → List ℕ → List ℕ
fill request counter zero i block = block
fill request counter (suc left) i block =
    let byte = request.offset + i in
    let place = byte / 4 % 16 in
    let shifted = character counter request.salt i * 2 ^ (24 - 8 * (byte % 4)) % 2 ^ 32 in
    fill request counter left (suc i) (set block place (bit_or (get_or block place 0) shifted))

-- The hash of the attempt with a counter.
pub hash_at : Request → ℕ → List ℕ
hash_at request counter = compress (fill request counter nonce 0 request.block)

-- The loop for `smaller`, from the masks `smaller` and `equal` on.
pub smaller_words : ℕ → ℕ → List ℕ → List ℕ → ℕ
smaller_words smaller equal [] bs = smaller
smaller_words smaller equal (h ∷ hs) [] = smaller
smaller_words smaller equal (h ∷ hs) (b ∷ bs) =
    smaller_words (bit_or smaller (bit_and equal (wrapping_neg (bit (ltb h b)))))
      (bit_and equal (wrapping_neg (bit (h == b)))) hs bs

-- `smaller as i32 as i64 as u64`, which extends the sign.
abbrev pub widened : ℕ → ℕ
widened mask = if ltb mask (2 ^ 31) then mask else mask + 2 ^ 64 - 2 ^ 32

-- The body of the loop over attempts.
pub attempt_one : Request → ℕ → Record → Record
attempt_one request counter best =
    let hash = hash_at request counter in
    let smaller = smaller_words 0 (2 ^ 32 - 1) hash best.hash in
    let wide = widened smaller in
    record {
      hash = select_limbs smaller hash best.hash;
      counter = bit_or (bit_and counter wide) (bit_and best.counter (2 ^ 64 - 1 - wide));
    }

pub attempts_from : Request → ℕ → ℕ → ℕ → Record → Record
attempts_from request first attempt zero best = best
attempts_from request first attempt (suc left) best =
    attempts_from request first (suc attempt) left
      (attempt_one request ((first + attempt) % 2 ^ 64) best)

-- `search`, of a thread
pub search : Request → ℕ → Record
search request thread =
    let first = (request.base + thread * request.attempts % 2 ^ 64) % 2 ^ 64 in
    attempts_from request first 0 request.attempts (record {
      hash =
          0xffffffff ∷ 0xffffffff ∷ 0xffffffff ∷ 0xffffffff ∷ 0xffffffff ∷ 0xffffffff ∷ 0xffffffff
          ∷ 0xffffffff ∷ [];
      counter = first;
    })
