-- ===== src/P256/Entry.antt =====
-- The kernel `sign` of examples/p256/kernel/src/lib.rs, and `on_host` of examples/p256/src/lib.rs. How the
-- compiler lays out the types is a parameter, as are the records in them.
pub mod Launched
mod Examples
use llvm_metal.Base.{
  ℕ, zero, suc, ◌+◌, ◌*◌, ◌/◌, ◌%◌, ◌^◌, Option, none, some, List, [], ◌∷◌, length, get_or,
  get_elem?, replicate, flat_map,
}
use llvm_metal.Kernel.Plain.{Plain}
use llvm_metal.Kernel.Host.{M, ◌>>=◌, pure, Buffers, thread_index, launch}
use llvm_metal.Kernel.Handles.{read, get, write}
use llvm_metal.Kernel.Values.{bytes, values}
use llvm_metal.P256.Point.{Point, identity, add_points}
use llvm_metal.P256.Curve.{Key, Request, Signature, finish}

-- The digit of a window of the nonce.
pub digit_of : List ℕ → ℕ → ℕ
digit_of k window = get_or k (window / 8) 0 / 2 ^ (4 * (window % 8)) % 16

module _ {KeyBytes PointBytes RequestBytes SignatureBytes : Type 0} ⦃plain_key : Plain KeyBytes⦄
    ⦃plain_point : Plain PointBytes⦄ ⦃plain_request : Plain RequestBytes⦄
    ⦃plain_signature : Plain SignatureBytes⦄ (key_of : KeyBytes → Key)
    (point_of : PointBytes → Point) (request_of : RequestBytes → Request)
    (bytes_of : Signature → SignatureBytes) where
  -- The loop over `left` windows, which ends early where the table is short.
  pub window_sum : Key → List ℕ → ℕ → ℕ → Point → M (Option Point)
  window_sum key k window zero sum = pure (some sum)
  window_sum key k window (suc left) sum =
      get {T = PointBytes} 1 (window * 16 + digit_of k window) >>= λ found. elim found [
        | none ↦ pure none
        | some multiple ↦
            window_sum key k (suc window) left (add_points key.p sum (point_of multiple) key.b3)
      ]

  -- `sign`
  pub sign_point : M (Unit {0})
  sign_point = read {T = KeyBytes} 0 >>= λ found. elim found [
    | none ↦ pure tt
    | some held ↦
        let key = key_of held in
        thread_index >>= λ index. get {T = RequestBytes} 2 index >>= λ given. elim given [
          | none ↦ pure tt
          | some asked ↦
              let request = request_of asked in
              window_sum key request.k 0 64 (identity key.p) >>= λ total. elim total [
                | none ↦ pure tt
                | some sum ↦ write 3 index (bytes_of (finish sum request.z request.k key))
              ]
        ]
  ]

  -- `on_host`; the signatures take as many bytes as the requests.
  pub sign_on_host : KeyBytes → List PointBytes → List RequestBytes → Option (List SignatureBytes)
  sign_on_host key table requests =
      let zeros = replicate (length requests * plain_request.size) 0 in
      let buffers : Buffers =
        bytes key ∷ flat_map bytes table ∷ flat_map bytes requests ∷ zeros ∷ [] in
      elim (launch (length requests % 2 ^ 32) buffers sign_point) [
        | none ↦ none
        | some after ↦ elim (get_elem? after 3) [ none ↦ none | some written ↦ values written ]
      ]
