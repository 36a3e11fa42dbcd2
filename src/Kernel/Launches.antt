-- ===== src/Kernel/Launches.antt =====
-- `launch` of kernel/src/host.rs over kernels whose threads each write one element of one buffer.
use llvm_metal.Base.{
  ℕ, zero, suc, ◌+◌, ◌*◌, ◌/◌, ◌^◌, ◌<◌, ◌≤◌, ◌≡◌, refl, sym, ◌∙◌, ap, some, List, [], ◌∷◌, ◌++◌,
  map, flat_map, get_or, take-append, drop-append, range, range_from, length, get_elem?, set, take,
  drop, ◌⊎◌, arith, slice, slice-ext,
}
use native.Mathlib.Nat.{mul-div_cancel, mul-le-mul_right}
use native.Mathlib.Decide.{ℕ_discrete}
use llvm_metal.Kernel.Plain.{Plain}
use llvm_metal.Kernel.Host.{Host, M, Buffers, launch, launch_from}
use llvm_metal.Kernel.Handles.{write}
use llvm_metal.Kernel.Writes.{with_buffer, IsPatched, elements_apart, write_lem}
use llvm_metal.Kernel.Values.{bytes, chunks, values}

drop-nil : (k : ℕ) → drop {A = ℕ} k [] ≡ []
drop-nil zero = refl
drop-nil (suc k) = refl

drop-drop : (a b : ℕ) (xs : List ℕ) → drop a (drop b xs) ≡ drop (b + a) xs
drop-drop a zero xs = let e : 0 + a ≡ a = omega arith in ap (λ (k : ℕ). drop k xs) (sym e)
drop-drop a (suc b) [] = drop-nil a ∙ sym (drop-nil (suc b + a))
drop-drop a (suc b) (x ∷ xs) =
    let e : suc b + a ≡ suc (b + a) = omega arith in
    drop-drop a b xs ∙ ap (λ (k : ℕ). drop k (x ∷ xs)) (sym e)

launch_step :
    (kernel : M (Unit {0})) (first left : ℕ) (buffers : Buffers) (h : Host)
    → kernel (record { thread = first; buffers = buffers }) ≡ some (tt, h)
    → launch_from kernel first (suc left) buffers ≡ launch_from kernel (suc first) left h.buffers
unfolding launch_from
launch_step kernel first left buffers h step = rw (step, launch_from) refl

module _ {T : Type 0} ⦃plain : Plain T⦄ where
  -- An element of the bytes of values is the value.
  pub element-bytes :
      (xs : List T) (j : ℕ) (d : T)
      → j < length xs
      → plain.from_bytes (slice (j * plain.size) plain.size (flat_map (bytes {T = T}) xs))
        ≡ get_or xs j d
  unfolding flat_map bytes
  element-bytes [] j d h = absurd (omega arith)
  element-bytes (x ∷ xs) zero d h =
      let rest = flat_map (bytes {T = T}) xs in
      let size = plain.length-to_bytes x in
      let none_before : 0 * plain.size ≡ 0 = omega arith in
      let first : take plain.size (plain.to_bytes x ++ rest) ≡ plain.to_bytes x =
        rw size at (take-append (plain.to_bytes x) rest) in
      ap (λ (k : ℕ). plain.from_bytes (slice k plain.size (plain.to_bytes x ++ rest))) none_before
      ∙ ap plain.from_bytes first
      ∙ plain.from_bytes-to_bytes x
  element-bytes (x ∷ xs) (suc j) d h =
      let rest = flat_map (bytes {T = T}) xs in
      let size = plain.length-to_bytes x in
      let skip : suc j * plain.size ≡ plain.size + j * plain.size = omega arith in
      let others : drop plain.size (plain.to_bytes x ++ rest) ≡ rest =
        rw size at (drop-append (plain.to_bytes x) rest) in
      let moved =
        ap (λ (k : ℕ). drop k (plain.to_bytes x ++ rest)) skip
        ∙ sym (drop-drop (j * plain.size) plain.size (plain.to_bytes x ++ rest))
        ∙ ap (λ (r : List ℕ). drop (j * plain.size) r) others in
      ap (λ (r : List ℕ). plain.from_bytes (take plain.size r)) moved
      ∙ element-bytes xs j d (omega arith)

module _ {T : Type 0} ⦃plain : Plain T⦄ (value : ℕ → T) where
  -- The elements from `first` on, as `values` reads them.
  chunks-map :
      (b : List ℕ) (first count : ℕ)
      → ((j : ℕ)
          → first ≤ j
          → j < first + count
          → plain.from_bytes (slice (j * plain.size) plain.size b) ≡ value j)
      → chunks count (drop (first * plain.size) b) ≡ map value (range_from first count)
  unfolding chunks
  chunks-map b first zero h = refl
  chunks-map b first (suc count) h =
      let next : first * plain.size + plain.size ≡ suc first * plain.size = omega arith in
      let rest =
        ap (λ (r : List ℕ). chunks count r)
          (drop-drop plain.size (first * plain.size) b ∙ ap (λ (k : ℕ). drop k b) next) in
      let others =
        rest ∙ chunks-map b (suc first) count (λ j lo hi. h j (omega arith) (omega arith)) in
      let here = h first (omega arith) (omega arith) in rw (here, others) refl

  -- The elements below `count` hold what they should.
  record Inv (count total : ℕ) (out : List ℕ) : Type 0 where
    size : length out ≡ total * plain.size
    filled :
        (j : ℕ) → j < count → plain.from_bytes (slice (j * plain.size) plain.size out) ≡ value j

  inside :
      (j total : ℕ) (out : List ℕ)
      → length out ≡ total * plain.size
      → j < total
      → j * plain.size + plain.size ≤ length out
  inside j total out e h = omega (arith, mul-le-mul_right plain.size h, e)

  Inv-next :
      (count total : ℕ) (out after : List ℕ)
      → count < total
      → Inv count total out
      → IsPatched out (count * plain.size) (plain.to_bytes (value count)) after
      → Inv (suc count) total after
  Inv-next count total out after below h p = record {
    size = p.same_length ∙ h.size;
    filled = λ j lt. elim (ℕ_discrete j count) [
      | yes e ↦
          let there : slice (count * plain.size) plain.size after ≡ plain.to_bytes (value count) =
            rw (plain.length-to_bytes (value count)) at p.inside in
          rw (e, there) (plain.from_bytes-to_bytes (value count))
      | no ne ↦
          let size = plain.length-to_bytes (value count) in
          let apart : (j * plain.size + plain.size ≤ count * plain.size)
              ⊎ (count * plain.size + plain.size ≤ j * plain.size) =
            elements_apart j count plain.size ne in
          let same =
            slice-ext out after (j * plain.size) plain.size
              (inside j total out h.size (omega arith)) (λ i lo hi. p.outside i (omega arith)) in
          ap plain.from_bytes same ∙ h.filled j (omega arith)
    ];
  }

  module _ (kernel : M (Unit {0})) (slot total : ℕ) (buffers : List ℕ → Buffers)
      (positive : 0 < plain.size) (small : total * plain.size < 2 ^ 64)
      (bound : (out : List ℕ) → get_elem? (buffers out) slot ≡ some out)
      (replaced : (out after : List ℕ) → set (buffers out) slot after ≡ buffers after)
      (runs : (thread : ℕ) (out : List ℕ)
        → thread < total
        → length out ≡ total * plain.size
        → kernel (record { thread = thread; buffers = buffers out })
          ≡ write slot thread
              (value thread)
              (record { thread = thread; buffers = buffers out })) where
    launch_from-Inv :
        (first left : ℕ) (out : List ℕ)
        → first + left ≡ total
        → Inv first total out
        → (final : List ℕ) × (launch_from kernel first left (buffers out) ≡ some (buffers final))
          × Inv total total final
    unfolding launch_from
    launch_from-Inv first zero out e h =
        let all : first ≡ total = omega (arith, e) in (out, refl, rw all at h)
    launch_from-Inv first (suc left) out e h =
        let host : Host = record { thread = first; buffers = buffers out } in
        let below : first < length out / plain.size =
          rw (ap (λ (k : ℕ). k / plain.size) h.size ∙ mul-div_cancel total positive)
            (omega (arith, e)) in
        let (after, wrote, p) =
          write_lem slot host out (bound out) (omega (arith, small, h.size)) positive first
            (value first) below in
        let step : kernel host ≡ some (tt, with_buffer host slot after) =
          runs first out (omega (arith, e)) h.size ∙ wrote in
        let (final, rest, done) =
          launch_from-Inv (suc first) left after (omega (arith, e))
            (Inv-next first total out after (omega (arith, e)) h p) in
        (
          final,
          launch_step kernel first left (buffers out) (with_buffer host slot after) step
              ∙ ap (λ (b : Buffers). launch_from kernel (suc first) left b) (replaced out after)
              ∙ rest,
          done,
        )

    -- A launch over an output of `total` elements, in which each thread writes its value.
    pub launch_lem :
        (out : List ℕ)
        → length out ≡ total * plain.size
        → (final : List ℕ) × (launch total (buffers out) kernel ≡ some (buffers final))
          × (values final ≡ some (map value (range total)))
    unfolding launch values
    launch_lem out e =
        let start : Inv 0 total out = record { size = e; filled = λ j h. absurd (omega arith) } in
        let (final, ran, done) = launch_from-Inv 0 total out (omega arith) start in
        let count : length final / plain.size ≡ total =
          ap (λ (k : ℕ). k / plain.size) done.size ∙ mul-div_cancel total positive in
        let read = chunks-map final 0 total (λ j lo hi. done.filled j (omega arith)) in
        (final, ran, ground (arith, ap (λ (k : ℕ). chunks {T = T} k final) count, read))
