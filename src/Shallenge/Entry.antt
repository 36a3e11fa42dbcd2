-- ===== src/Shallenge/Entry.antt =====
-- The kernel `shallenge` of examples/shallenge/kernel/src/lib.rs, and `request`, `nonce` and `on_host` of
-- examples/shallenge/src/lib.rs. How the compiler lays out a request and a record is a parameter.
pub mod Launched
pub mod Hashed
mod Examples
use llvm_metal.Base.{
  ℕ, ◌+◌, ◌-◌, ◌*◌, ◌%◌, ◌^◌, Option, none, some, List, [], ◌∷◌, ◌++◌, map, range, length,
  get_elem?, replicate, leb, if◌then◌else◌,
}
use llvm_metal.Kernel.Plain.{Plain}
use llvm_metal.Kernel.Host.{M, ◌>>=◌, pure, Buffers, thread_index, launch}
use llvm_metal.Kernel.Handles.{read, write}
use llvm_metal.Kernel.Values.{bytes, values}
use llvm_metal.Shallenge.{Request, Record, nonce, character, search}
use llvm_metal.Shallenge.Sha.{words_of, be_bytes_long}

-- `request`; a failed assertion is none.
pub request : List ℕ → ℕ → ℕ → ℕ → Option Request
request prefix base salt attempts =
    let total = length prefix + nonce in
    let block =
      prefix
      ++ (replicate nonce 0 ++ (0x80 ∷ replicate (55 - total) 0 ++ be_bytes_long (total * 8))) in
    if leb (length prefix) 32
    then some (record {
      base = base;
      salt = salt;
      block = words_of 16 block;
      offset = length prefix;
      attempts = attempts;
    })
    else none

-- `nonce`
pub nonce_text : Request → Record → List ℕ
nonce_text asked found = map (λ i. character found.counter asked.salt i % 2 ^ 8) (range nonce)

module _ {RequestBytes RecordBytes : Type 0} ⦃plain_request : Plain RequestBytes⦄
    ⦃plain_record : Plain RecordBytes⦄ (request_of : RequestBytes → Request)
    (bytes_of : Record → RecordBytes) where
  -- `shallenge`
  pub shallenge : M (Unit {0})
  shallenge = read {T = RequestBytes} 0 >>= λ found. elim found [
    | none ↦ pure tt
    | some held ↦
        thread_index >>= λ index. write 1 index (bytes_of (search (request_of held) index))
  ]

  -- `on_host`
  pub search_on_host : RequestBytes → ℕ → Option (List RecordBytes)
  search_on_host asked threads =
      let zeros = replicate (threads * plain_record.size) 0 in
      let buffers : Buffers = bytes asked ∷ zeros ∷ [] in
      elim (launch (threads % 2 ^ 32) buffers shallenge) [
        | none ↦ none
        | some after ↦ elim (get_elem? after 1) [ none ↦ none | some written ↦ values written ]
      ]
