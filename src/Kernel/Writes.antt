-- ===== src/Kernel/Writes.antt =====
-- Writing through the handles of kernel/src/lib.rs: only the element's bytes change.
use llvm_metal.Base.{
  ℕ, suc, ◌+◌, ◌*◌, ◌/◌, ◌^◌, ◌<◌, ◌≤◌, ◌≡◌, ◌≢◌, ◌⊎◌, inl, inr, refl, ◌∙◌, ap, Option, none, some,
  List, [], ◌∷◌, length, get_elem?, set, length-set, set-set, set-same, get_elem?-set_self,
  get_elem?-set_ne, lt-length_of_get_elem?, slice, slice-suc, slice-ext, ltb, if◌then◌else◌, arith,
  Bool-cases, lt→ltb, ltb→lt,
}
use native.Mathlib.Nat.{mod-eq_of_lt, mul-le-mul_right}
use native.Mathlib.Decide.{dec_lt}
use llvm_metal.Kernel.Plain.{Plain}
use llvm_metal.Kernel.Host.{Host, u64, store}
use llvm_metal.Kernel.Handles.{store_bytes, get, write}
use llvm_metal.Kernel.Reads.{element_inside, buffer_length_lem, get_lem}

-- The host after the buffer of a slot was replaced.
abbrev pub with_buffer : Host → ℕ → List ℕ → Host
with_buffer h slot buffer = record h { buffers = set h.buffers slot buffer }

-- `after` holds `bytes` from `start` on, and is `before` elsewhere.
pub record IsPatched (before : List ℕ) (start : ℕ) (bytes after : List ℕ) : Type 0 where
  pub same_length : length after ≡ length before
  pub inside : slice start (length bytes) after ≡ bytes
  pub outside :
      (i : ℕ) → (i < start) ⊎ (start + length bytes ≤ i) → get_elem? after i ≡ get_elem? before i

pub IsPatched-cons :
    (before after : List ℕ) (start byte : ℕ) (bytes : List ℕ)
    → start < length before
    → IsPatched (set before start byte) (suc start) bytes after
    → IsPatched before start (byte ∷ bytes) after
IsPatched-cons before after start byte bytes h p = record {
  same_length = p.same_length ∙ length-set before start byte;
  inside =
      slice-suc after start (length bytes) byte
        (p.outside start (inl (omega arith)) ∙ get_elem?-set_self before start byte h)
      ∙ ap (λ (r : List ℕ). byte ∷ r) p.inside;
  outside = λ i k. p.outside i (omega arith) ∙ get_elem?-set_ne before start i byte (omega arith);
}

store_lem :
    (slot : ℕ) (h : Host) (buffer : List ℕ) (offset byte : ℕ)
    → get_elem? h.buffers slot ≡ some buffer
    → length buffer < 2 ^ 64
    → offset < length buffer
    → store slot (u64 offset) byte h ≡ some (tt, with_buffer h slot (set buffer offset byte))
unfolding store
store_lem slot h buffer offset byte bound small inside =
    let small_offset = mod-eq_of_lt {n = offset} {m = 2 ^ 64} (omega arith) in ground arith

pub store_bytes_lem :
    (slot : ℕ) (h : Host) (buffer : List ℕ) (start : ℕ) (bytes : List ℕ)
    → get_elem? h.buffers slot ≡ some buffer
    → length buffer < 2 ^ 64
    → start + length bytes ≤ length buffer
    → (after : List ℕ) × (store_bytes slot start bytes h ≡ some (tt, with_buffer h slot after))
      × IsPatched buffer start bytes after
unfolding store_bytes
store_bytes_lem slot h buffer start [] bound small inside = (
  buffer,
  rw (set-same h.buffers slot buffer bound) refl,
  record { same_length = refl; inside = refl; outside = λ i k. refl },
)
store_bytes_lem slot h buffer start (byte ∷ bytes) bound small inside =
    let next = set buffer start byte in
    let known = lt-length_of_get_elem? h.buffers slot buffer bound in
    let size = length-set buffer start byte in
    let (after, runs, patched) =
      store_bytes_lem slot (with_buffer h slot next) next (suc start) bytes
        (get_elem?-set_self h.buffers slot next known) (omega arith) (omega arith) in
    (
      after,
      ground (
        arith,
        store_lem slot h buffer start byte bound small (omega arith),
        set-set h.buffers slot next after,
      ),
      IsPatched-cons buffer after start byte bytes (omega arith) patched,
    )

-- Two elements of an array have no byte in common.
pub elements_apart :
    (i j size : ℕ) → i ≢ j → (i * size + size ≤ j * size) ⊎ (j * size + size ≤ i * size)
elements_apart i j size ne = elim (dec_lt i j) [
  | yes p ↦ inl (omega (arith, mul-le-mul_right size p))
  | no np ↦ let q : j < i = omega arith in inr (omega (arith, mul-le-mul_right size q))
]

module _ {T : Type 0} ⦃plain : Plain T⦄ (slot : ℕ) (h : Host) (buffer : List ℕ)
    (bound : get_elem? h.buffers slot ≡ some buffer) (small : length buffer < 2 ^ 64)
    (positive : 0 < plain.size) where
  -- `write` of a bound buffer does not panic. Below the count of whole elements it puts the bytes of the
  -- value in the element's place and changes no other byte and no other buffer.
  pub write_lem :
      (index : ℕ) (value : T)
      → index < length buffer / plain.size
      → (after : List ℕ) × (write slot index value h ≡ some (tt, with_buffer h slot after))
        × IsPatched buffer (index * plain.size) (plain.to_bytes value) after
  unfolding write
  write_lem index value below =
      let inside = element_inside index plain.size (length buffer) below in
      let size = plain.length-to_bytes value in
      let start = mod-eq_of_lt {n = index * plain.size} {m = 2 ^ 64} (omega arith) in
      let (after, runs, patched) =
        store_bytes_lem slot h buffer (index * plain.size) (plain.to_bytes value) bound small
          (omega arith) in
      (after, ground (arith, buffer_length_lem slot h buffer bound small), patched)

  -- `write` past the last whole element changes nothing.
  pub write_past :
      (index : ℕ) (value : T)
      → length buffer / plain.size ≤ index
      → write slot index value h ≡ some (tt, h)
  unfolding write
  write_past index value above = ground (arith, buffer_length_lem slot h buffer bound small)

  -- The element of a buffer, if it has so many.
  abbrev pub element : ℕ → List ℕ → Option T
  element index b =
      if ltb index (length b / plain.size)
      then some (plain.from_bytes (slice (index * plain.size) plain.size b))
      else none

  element-patched :
      (index : ℕ) (value : T) (after : List ℕ)
      → index < length buffer / plain.size
      → IsPatched buffer (index * plain.size) (plain.to_bytes value) after
      → element index after ≡ some value
  element-patched index value after below p =
      let there : slice (index * plain.size) plain.size after ≡ plain.to_bytes value =
        rw (plain.length-to_bytes value) at p.inside in
      rw (p.same_length, lt→ltb index (length buffer / plain.size) below, there)
        (ap some (plain.from_bytes-to_bytes value))

  element-other :
      (index j : ℕ) (value : T) (after : List ℕ)
      → index < length buffer / plain.size
      → j ≢ index
      → IsPatched buffer (index * plain.size) (plain.to_bytes value) after
      → element j after ≡ element j buffer
  element-other index j value after below ne p =
      elim (Bool-cases (ltb j (length buffer / plain.size))) [
        | inr above ↦ rw (p.same_length, above)
        | inl in_range ↦
            let size = plain.length-to_bytes value in
            let apart : (j * plain.size + plain.size ≤ index * plain.size)
                ⊎ (index * plain.size + plain.size ≤ j * plain.size) =
              elements_apart j index plain.size ne in
            let same =
              slice-ext buffer after (j * plain.size) plain.size
                (element_inside j plain.size (length buffer) (ltb→lt j _ in_range))
                (λ i lo hi. p.outside i (omega arith)) in
            rw (p.same_length, in_range, same)
      ]

  -- What `write` put into an element `get` returns, and any other element is as before.
  pub get-write :
      (index j : ℕ) (value : T)
      → index < length buffer / plain.size
      → j ≢ index
      → (after : List ℕ) × (write slot index value h ≡ some (tt, with_buffer h slot after))
        × (get slot index (with_buffer h slot after) ≡ some (some value, with_buffer h slot after))
        × (get slot j h ≡ some (element j buffer, h))
        × (get slot j (with_buffer h slot after)
            ≡ some (element j buffer, with_buffer h slot after))
  get-write index j value below ne =
      let (after, runs, p) = write_lem index value below in
      let h' = with_buffer h slot after in
      let known = lt-length_of_get_elem? h.buffers slot buffer bound in
      let bound' = get_elem?-set_self h.buffers slot after known in
      let small' : length after < 2 ^ 64 = omega (arith, p.same_length) in
      let found = λ (k : ℕ). get_lem slot h' after bound' small' {T = T} k positive in
      (
        after,
        runs,
        found index ∙ ap (λ e. some (e, h')) (element-patched index value after below p),
        get_lem slot h buffer bound small {T = T} j positive,
        found j ∙ ap (λ e. some (e, h')) (element-other index j value after below ne p),
      )
