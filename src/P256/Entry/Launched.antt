-- ===== src/P256/Entry/Launched.antt =====
-- `on_host` of examples/p256/src/lib.rs signs every request.
use mathlib.Core.List.{foldl}
use llvm_metal.Base.{
  ℕ, zero, suc, ◌+◌, ◌*◌, ◌%◌, ◌^◌, ◌<◌, ◌≤◌, ◌≡◌, refl, ◌∙◌, ap, some, List, [], ◌∷◌, map, range,
  range_from, flat_map, length, length-replicate, get_elem?, get_or, replicate, arith,
}
use native.Mathlib.Nat.{mod-eq_of_lt, mod-lt}
use llvm_metal.Kernel.Plain.{Plain}
use llvm_metal.Kernel.Host.{Host, Buffers, thread_index}
use llvm_metal.Kernel.Handles.{read, get, write}
use llvm_metal.Kernel.Values.{bytes}
use llvm_metal.Kernel.Launches.{launch_lem}
use llvm_metal.Kernel.Bound.{map-get_or, read-bytes, get-bytes}
use llvm_metal.P256.Point.{Point, identity, add_points}
use llvm_metal.P256.Curve.{Key, Request, Signature, finish}
use llvm_metal.P256.Entry.{digit_of, window_sum, sign_point, sign_on_host}

module _ {PointBytes : Type 0} (point_of : PointBytes → Point) where
  -- The entries of the table that a nonce chooses: for each window the one of its digit.
  pub chosen : List PointBytes → PointBytes → List ℕ → List ℕ → List Point
  chosen table d k = map (λ window. point_of (get_or table (window * 16 + digit_of k window) d))

  -- Their sum.
  pub table_sum : Key → List PointBytes → PointBytes → List ℕ → Point
  table_sum key table d k =
      foldl (λ sum point. add_points key.p sum point key.b3) (identity key.p)
        (chosen table d k (range 64))

module _ {KeyBytes PointBytes RequestBytes SignatureBytes : Type 0} (key_of : KeyBytes → Key)
    (point_of : PointBytes → Point) (request_of : RequestBytes → Request)
    (bytes_of : Signature → SignatureBytes) (key : KeyBytes) (table : List PointBytes)
    (d : PointBytes) where
  -- The signature of a request.
  pub signature_of : RequestBytes → SignatureBytes
  signature_of asked =
      let request = request_of asked in
      bytes_of (
        finish (table_sum point_of (key_of key) table d request.k) request.z request.k (key_of key))

digit_of-lt : (k : List ℕ) (window : ℕ) → digit_of k window < 16
unfolding digit_of
digit_of-lt k window = mod-lt _ (omega arith)

module _ {KeyBytes PointBytes RequestBytes SignatureBytes : Type 0} ⦃plain_key : Plain KeyBytes⦄
    ⦃plain_point : Plain PointBytes⦄ ⦃plain_request : Plain RequestBytes⦄
    ⦃plain_signature : Plain SignatureBytes⦄ (key_of : KeyBytes → Key)
    (point_of : PointBytes → Point) (request_of : RequestBytes → Request)
    (bytes_of : Signature → SignatureBytes) (key : KeyBytes) (table : List PointBytes)
    (d : PointBytes) (requests : List RequestBytes) (key_small : plain_key.size < 2 ^ 64)
    (point_positive : 0 < plain_point.size) (table_small : length table * plain_point.size < 2 ^ 64)
    (whole : 1024 ≤ length table) (positive : 0 < plain_request.size)
    (small : length requests * plain_request.size < 2 ^ 64)
    (same_size : plain_signature.size ≡ plain_request.size) (few : length requests < 2 ^ 32) where
  window_step :
      (h : Host) (k : List ℕ) (window left : ℕ) (sum : Point) (point : PointBytes)
      → get {T = PointBytes} 1 (window * 16 + digit_of k window) h ≡ some (some point, h)
      → window_sum key_of point_of request_of bytes_of (key_of key) k window (suc left) sum h
        ≡ window_sum key_of point_of request_of bytes_of
            (key_of key)
            k
            (suc window)
            left
            (add_points (key_of key).p sum (point_of point) (key_of key).b3)
            h
  unfolding window_sum
  window_step h k window left sum point got = ground arith

  window_sum_lem :
      (h : Host) (k : List ℕ) (window left : ℕ) (sum : Point)
      → get_elem? h.buffers 1 ≡ some (flat_map bytes table)
      → window + left ≤ 64
      → window_sum key_of point_of request_of bytes_of (key_of key) k window left sum h
        ≡ some (
          some (
              foldl
                (λ sum point. add_points (key_of key).p sum point (key_of key).b3)
                sum
                (chosen point_of table d k (range_from window left))),
          h,
        )
  unfolding window_sum chosen
  window_sum_lem h k window zero sum e n = refl
  window_sum_lem h k window (suc left) sum e n =
      let digit = digit_of-lt k window in
      let at = window * 16 + digit_of k window in
      let got = get-bytes 1 h table at d e point_positive table_small (omega arith) in
      let next = add_points (key_of key).p sum (point_of (get_or table at d)) (key_of key).b3 in
      window_step h k window left sum (get_or table at d) got
      ∙ window_sum_lem h k (suc window) left next e (omega arith)

  sign_step :
      (h : Host) (asked : RequestBytes) (sum : Point)
      → read {T = KeyBytes} 0 h ≡ some (some key, h)
      → get {T = RequestBytes} 2 h.thread h ≡ some (some asked, h)
      → window_sum key_of point_of request_of bytes_of
          (key_of key)
          (request_of asked).k
          0
          64
          (identity (key_of key).p)
          h
        ≡ some (some sum, h)
      → sign_point key_of point_of request_of bytes_of h
        ≡ write 3 h.thread
            (bytes_of (finish sum (request_of asked).z (request_of asked).k (key_of key)))
            h
  unfolding sign_point thread_index
  sign_step h asked sum found given total = ground arith

  buffers : List ℕ → Buffers
  buffers out = bytes key ∷ flat_map bytes table ∷ flat_map bytes requests ∷ out ∷ []

  sign_point_lem :
      (thread : ℕ) (out : List ℕ) (r : RequestBytes)
      → thread < length requests
      → sign_point key_of point_of request_of bytes_of
          (record { thread = thread; buffers = buffers out })
        ≡ write 3 thread
            (signature_of key_of point_of request_of bytes_of key table d
              (get_or requests thread r))
            (record { thread = thread; buffers = buffers out })
  unfolding buffers signature_of table_sum
  sign_point_lem thread out r below =
      let host : Host = record { thread = thread; buffers = buffers out } in
      let asked = get_or requests thread r in
      sign_step host asked (table_sum point_of (key_of key) table d (request_of asked).k)
        (read-bytes 0 host key refl key_small)
        (get-bytes 2 host requests thread r refl positive small below)
        (window_sum_lem host (request_of asked).k 0 64 (identity (key_of key).p) refl (omega arith))

  -- For a table of at least 1024 points, fewer than 2 ^ 32 requests, signatures as long as requests, and
  -- buffers of fewer than 2 ^ 64 bytes, `on_host` does not panic: the values read back are, in order, what
  -- `finish` makes of each request and the sum of the 64 entries that its nonce chooses.
  pub sign_on_host_lem :
      (r : RequestBytes)
      → sign_on_host key_of point_of request_of bytes_of key table requests
        ≡ some (map (signature_of key_of point_of request_of bytes_of key table d) requests)
  unfolding sign_on_host buffers
  sign_on_host_lem r =
      let total = length requests in
      let zeros : List ℕ = replicate (total * plain_request.size) 0 in
      let threads : total % 2 ^ 32 ≡ total = mod-eq_of_lt few in
      let made = λ (j : ℕ).
        signature_of key_of point_of request_of bytes_of key table d (get_or requests j r) in
      let (final, ran, read_back) =
        launch_lem made (sign_point key_of point_of request_of bytes_of) 3 total buffers
          (rw same_size positive) (rw same_size small) (λ out. refl) (λ out after. refl)
          (λ thread out h e. sign_point_lem thread out r h) zeros
          (rw same_size (length-replicate (total * plain_request.size) 0)) in
      let all =
        map-get_or (signature_of key_of point_of request_of bytes_of key table d) requests requests
          r 0 (λ j. let e : 0 + j ≡ j = omega arith in ap (λ (k : ℕ). get_or requests k r) e) in
      rw (threads, ran, sign_on_host) (read_back ∙ ap some all)
