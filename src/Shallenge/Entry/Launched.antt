-- ===== src/Shallenge/Entry/Launched.antt =====
-- `on_host` of examples/shallenge/src/lib.rs runs the search of every thread.
use llvm_metal.Base.{
  ℕ, ◌*◌, ◌%◌, ◌^◌, ◌<◌, ◌≡◌, refl, some, List, [], ◌∷◌, map, range, length-replicate, replicate,
  arith,
}
use native.Mathlib.Nat.{mod-eq_of_lt}
use llvm_metal.Kernel.Plain.{Plain}
use llvm_metal.Kernel.Host.{Host, Buffers, thread_index}
use llvm_metal.Kernel.Handles.{read, write}
use llvm_metal.Kernel.Values.{bytes}
use llvm_metal.Kernel.Launches.{launch_lem}
use llvm_metal.Kernel.Bound.{read-bytes}
use llvm_metal.Shallenge.{Request, Record, search}
use llvm_metal.Shallenge.Entry.{shallenge, search_on_host}

module _ {RequestBytes RecordBytes : Type 0} ⦃plain_request : Plain RequestBytes⦄
    ⦃plain_record : Plain RecordBytes⦄ (request_of : RequestBytes → Request)
    (bytes_of : Record → RecordBytes) (asked : RequestBytes) (threads : ℕ)
    (request_small : plain_request.size < 2 ^ 64) (positive : 0 < plain_record.size)
    (small : threads * plain_record.size < 2 ^ 64) (few : threads < 2 ^ 32) where
  shallenge_step :
      (h : Host)
      → read {T = RequestBytes} 0 h ≡ some (some asked, h)
      → shallenge request_of bytes_of h
        ≡ write 1 h.thread (bytes_of (search (request_of asked) h.thread)) h
  unfolding shallenge thread_index
  shallenge_step h found = ground arith

  buffers : List ℕ → Buffers
  buffers out = bytes asked ∷ out ∷ []

  shallenge_lem :
      (thread : ℕ) (out : List ℕ)
      → shallenge request_of bytes_of (record { thread = thread; buffers = buffers out })
        ≡ write 1 thread
            (bytes_of (search (request_of asked) thread))
            (record { thread = thread; buffers = buffers out })
  unfolding buffers
  shallenge_lem thread out =
      let host : Host = record { thread = thread; buffers = buffers out } in
      shallenge_step host (read-bytes 0 host asked refl request_small)

  -- For fewer than 2 ^ 32 threads, and buffers of fewer than 2 ^ 64 bytes, `on_host` does not panic: the
  -- records read back are those of the searches of the threads, in order.
  pub search_on_host_lem :
      search_on_host request_of bytes_of asked threads
      ≡ some (map (λ thread. bytes_of (search (request_of asked) thread)) (range threads))
  unfolding search_on_host buffers
  search_on_host_lem =
      let zeros : List ℕ = replicate (threads * plain_record.size) 0 in
      let exact : threads % 2 ^ 32 ≡ threads = mod-eq_of_lt few in
      let made = λ (thread : ℕ). bytes_of (search (request_of asked) thread) in
      let (final, ran, read_back) =
        launch_lem made (shallenge request_of bytes_of) 1 threads buffers positive small
          (λ out. refl) (λ out after. refl) (λ thread out h e. shallenge_lem thread out) zeros
          (length-replicate (threads * plain_record.size) 0) in
      rw (exact, ran, search_on_host) read_back
