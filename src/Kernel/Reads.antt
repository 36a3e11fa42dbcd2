-- ===== src/Kernel/Reads.antt =====
-- Reading through the handles of kernel/src/lib.rs: every access is inside the buffer, and the value
-- is the one that the bytes stand for.
use llvm_metal.Base.{
  ℕ, zero, suc, ◌+◌, ◌*◌, ◌/◌, ◌^◌, ◌<◌, ◌≤◌, ◌≡◌, refl, none, some, List, length, get_elem?,
  get_elem?-eq-get_or, slice, slice-suc, ltb, leb, if◌then◌else◌, arith, Bool-cases, inl, inr,
  ltb→lt,
}
use native.Mathlib.Nat.{mod-eq_of_lt, div-mul-le_self, mul-le-mul_right}
use llvm_metal.Kernel.Plain.{Plain}
use llvm_metal.Kernel.Host.{Host, buffer_length, load}
use llvm_metal.Kernel.Handles.{load_bytes, load_value, read, get}

-- An element below the count of whole elements lies inside the buffer.
pub element_inside : (index size bytes : ℕ) → index < bytes / size → index * size + size ≤ bytes
element_inside index size bytes h =
    omega (arith, mul-le-mul_right size h, div-mul-le_self bytes size)

module _ (slot : ℕ) (h : Host) (buffer : List ℕ) (bound : get_elem? h.buffers slot ≡ some buffer)
    (small : length buffer < 2 ^ 64) where
  pub load_bytes_lem :
      (start count : ℕ)
      → start + count ≤ length buffer
      → load_bytes slot start count h ≡ some (slice start count buffer, h)
  unfolding load_bytes load
  load_bytes_lem start zero inside = refl
  load_bytes_lem start (suc count) inside =
      let e = get_elem?-eq-get_or buffer start 0 (omega arith) in
      let small_start = mod-eq_of_lt {n = start} {m = 2 ^ 64} (omega arith) in
      let rest = load_bytes_lem (suc start) count (omega arith) in
      let whole = slice-suc buffer start count _ e in ground arith

  pub buffer_length_lem : buffer_length slot h ≡ some (length buffer, h)
  unfolding buffer_length
  buffer_length_lem =
      let whole = mod-eq_of_lt {n = length buffer} {m = 2 ^ 64} small in ground arith

  module _ {T : Type 0} ⦃plain : Plain T⦄ where
    load_value_lem :
        (start : ℕ)
        → start + plain.size ≤ length buffer
        → load_value slot start h ≡ some (plain.from_bytes (slice start plain.size buffer), h)
    unfolding load_value
    load_value_lem start inside = ground (arith, load_bytes_lem start plain.size inside)

    -- `read` of a bound buffer does not panic and changes nothing: it returns the value that the first
    -- bytes stand for if the buffer has enough of them, and none if not.
    pub read_lem :
        read slot h
        ≡ some (
          (if leb plain.size (length buffer)
              then some (plain.from_bytes (slice 0 plain.size buffer))
              else none),
          h,
        )
    unfolding read
    read_lem = ground (arith, buffer_length_lem, load_value_lem 0)

    -- `get` of a bound buffer does not panic and changes nothing: below the count of whole elements it
    -- returns the value that the element's bytes stand for, and none from there on.
    pub get_lem :
        (index : ℕ)
        → 0 < plain.size
        → get slot index h
          ≡ some (
            (if ltb index (length buffer / plain.size)
                then some (plain.from_bytes (slice (index * plain.size) plain.size buffer))
                else none),
            h,
          )
    unfolding get
    get_lem index positive = elim (Bool-cases (ltb index (length buffer / plain.size))) [
      | inl below ↦
          let inside = element_inside index plain.size (length buffer) (ltb→lt index _ below) in
          let start = mod-eq_of_lt {n = index * plain.size} {m = 2 ^ 64} (omega arith) in
          let value = load_value_lem (index * plain.size) inside in
          ground (arith, buffer_length_lem)
      | inr above ↦ ground (arith, buffer_length_lem)
    ]
