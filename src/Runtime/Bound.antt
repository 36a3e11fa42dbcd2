-- ===== src/Runtime/Bound.antt =====
-- `run` of runtime/src/lib.rs: where the kernel finds its buffers, their lengths and the status.
use llvm_metal.Base.{
  ℕ, zero, suc, ◌+◌, ◌*◌, ◌<◌, ◌≤◌, ◌≡◌, ◌⊎◌, inl, inr, refl, ◌∙◌, ap, true, none, some, List, [],
  ◌∷◌, ◌++◌, map, length, get_or, get_elem?, take, ltb, ◌==◌, ==_iff, Bool-cases, Option-cases,
  arith,
}
use llvm_metal.Runtime.{
  Metal, Failure, cannot_allocate, no_command_buffer, no_encoder, command_failed, thread_panicked,
  Outcome, done, failed, numbered, overwritten, buffer, dispatch, bound_of, run_bound,
}

-- What Metal promises of memory: a new buffer of `count` 64-bit values holds so many, and making another buffer
-- leaves what the host wrote.
pub record IsMemory (metal : Metal) : Type 0 where
  pub sized :
      (count : ℕ) (device after : metal.Device) (raw : metal.Raw)
      → metal.new_buffer (count * 8) device ≡ some (raw, after)
      → length (metal.contents raw after) ≡ count
  pub kept :
      (bytes others : ℕ) (device first second : metal.Device) (raw other : metal.Raw)
      (written : List ℕ)
      → metal.new_buffer bytes device ≡ some (raw, first)
      → metal.new_buffer others (metal.fill raw written first) ≡ some (other, second)
      → metal.contents raw second ≡ written

pub overwritten-whole : (old new : List ℕ) → length old ≡ length new → overwritten old new ≡ new
unfolding overwritten
overwritten-whole [] [] e = refl
overwritten-whole [] (n ∷ ns) e = absurd (omega arith)
overwritten-whole (o ∷ os) [] e = absurd (omega arith)
overwritten-whole (o ∷ os) (n ∷ ns) e =
    ap (λ (r : List ℕ). n ∷ r) (overwritten-whole os ns (omega arith))

module _ {A : Type 0} where
  -- Each of the first buffers is bound at its index, and what follows them at the next two.
  pub numbered-lem :
      (first count : ℕ) (xs : List A) (a b : A)
      → count ≤ length xs
      → ((i : ℕ)
          → i < count
          → get_elem? (numbered first (take count xs ++ (a ∷ b ∷ []))) i
            ≡ elim (get_elem? xs i) [ none ↦ none | some x ↦ some (first + i, x) ])
        × (get_elem? (numbered first (take count xs ++ (a ∷ b ∷ []))) count
            ≡ some (first + count, a))
        × (get_elem? (numbered first (take count xs ++ (a ∷ b ∷ []))) (suc count)
            ≡ some (first + suc count, b))
  unfolding numbered
  numbered-lem first zero xs a b h =
      let e : first ≡ first + 0 = omega arith in
      let f : suc first ≡ first + 1 = omega arith in
      (λ i lt. absurd (omega arith), ap (λ (k : ℕ). some (k, a)) e, ap (λ (k : ℕ). some (k, b)) f)
  numbered-lem first (suc count) [] a b h = absurd (omega arith)
  numbered-lem first (suc count) (x ∷ xs) a b h =
      let (each, one, two) = numbered-lem (suc first) count xs a b (omega arith) in
      let at : (k : ℕ) → suc first + k ≡ first + suc k = λ k. omega arith in
      (
        λ i. first_or i each,
        one ∙ ap (λ (k : ℕ). some (k, a)) (at count),
        two ∙ ap (λ (k : ℕ). some (k, b)) (at (suc count)),
      )
    where
      first_or :
          (i : ℕ)
          → ((j : ℕ)
              → j < count
              → get_elem? (numbered (suc first) (take count xs ++ (a ∷ b ∷ []))) j
                ≡ elim (get_elem? xs j) [ none ↦ none | some y ↦ some (suc first + j, y) ])
          → i < suc count
          → get_elem? ((first, x) ∷ numbered (suc first) (take count xs ++ (a ∷ b ∷ []))) i
            ≡ elim (get_elem? (x ∷ xs) i) [ none ↦ none | some y ↦ some (first + i, y) ]
      first_or zero each lt =
          let e : first ≡ first + 0 = omega arith in ap (λ (k : ℕ). some (k, x)) e
      first_or (suc i) each lt =
          let e : suc first + i ≡ first + suc i = omega arith in
          each i (omega arith)
          ∙ ap (λ (k : ℕ). elim (get_elem? xs i) [ none ↦ none | some y ↦ some (k, y) ]) e

module _ (metal : Metal) where
  open metal use {Raw, Device}

  abbrev pub IsFailed : {A : Type 0} → Outcome A → Type 0
  IsFailed o = (failure : Failure) × (o ≡ failed failure)

  pub buffer_lem :
      (size len : ℕ) (device : Device)
      → IsFailed (buffer metal size len device)
        ⊎ ((raw : Raw) × (after : Device) × (buffer metal size len device ≡ done (raw, after))
            × (metal.new_buffer (len * size) device ≡ some (raw, after)))
  unfolding buffer
  buffer_lem size len device = elim (Bool-cases (ltb 0 (len * size))) [
    | inr empty ↦ inl (cannot_allocate (len * size), rw (empty, buffer) refl)
    | inl some_bytes ↦ elim (Option-cases (metal.new_buffer (len * size) device)) [
      | inl refused ↦ inl (cannot_allocate (len * size), rw (some_bytes, refused, buffer) refl)
      | inr ((raw, after), made) ↦ inr (raw, after, rw (some_bytes, made, buffer) refl, made)
    ]
  ]

  -- The command over the bound buffers, run from a state of the device.
  abbrev pub executed : ℕ → List Raw → Device → Device
  executed threads bound device =
      metal.execute (numbered 0 bound) threads (metal.execution_width device) device

  dispatch_lem :
      (threads : ℕ) (bound : List Raw) (device : Device)
      → IsFailed (dispatch metal threads bound device)
        ⊎ ((dispatch metal threads bound device
              ≡ done
                  (metal.gpu_time (executed threads bound device), executed threads bound device))
            × (metal.completed (executed threads bound device) ≡ true))
  unfolding dispatch
  dispatch_lem threads bound device = elim (Bool-cases (metal.command_buffer device)) [
    | inr e ↦ inl (no_command_buffer, rw (e, dispatch) refl)
    | inl c ↦ elim (Bool-cases (metal.compute_encoder device)) [
      | inr e ↦ inl (no_encoder, rw (c, e, dispatch) refl)
      | inl d ↦ elim (Bool-cases (metal.completed (executed threads bound device))) [
        | inr e ↦ inl (command_failed, rw (c, d, e, dispatch) refl)
        | inl e ↦ inr (rw (c, d, e, dispatch) refl, e)
      ]
    ]
  ]

  -- What a launch that succeeds has done: `before` is the device as the command finds it.
  pub record IsRun (threads slots : ℕ) (buffers : List Raw) (elapsed : ℕ) (after : Device)
      : Type 0 where
    pub lengths : Raw
    pub status : Raw
    pub before : Device
    pub ran : after ≡ executed threads (bound_of metal (take slots buffers) lengths status) before
    pub time : elapsed ≡ metal.gpu_time after
    pub ended : metal.completed after ≡ true
    pub healthy : get_or (metal.contents status after) 0 0 ≡ 0
    pub written : metal.contents lengths before ≡ map metal.length_of (take slots buffers)
    pub each :
        (i : ℕ)
        → i < slots
        → get_elem? (numbered 0 (bound_of metal (take slots buffers) lengths status)) i
          ≡ elim (get_elem? buffers i) [ none ↦ none | some raw ↦ some (0 + i, raw) ]
    pub lengths_at :
        get_elem? (numbered 0 (bound_of metal (take slots buffers) lengths status)) slots
        ≡ some (0 + slots, lengths)
    pub status_at :
        get_elem? (numbered 0 (bound_of metal (take slots buffers) lengths status)) (suc slots)
        ≡ some (0 + suc slots, status)

  pub run_bound_lem :
      (threads : ℕ) (buffers : List Raw) (lengths status : Raw) (device : Device)
      → IsFailed (run_bound metal threads buffers lengths status device)
        ⊎ ((elapsed : ℕ) × (after : Device) × (run_bound metal threads buffers lengths status device
              ≡ done (elapsed, after))
            × (after ≡ executed threads (bound_of metal buffers lengths status) device)
            × (elapsed ≡ metal.gpu_time after)
            × (metal.completed after ≡ true)
            × (get_or (metal.contents status after) 0 0 ≡ 0))
  unfolding run_bound
  run_bound_lem threads buffers lengths status device =
      let bound = bound_of metal buffers lengths status in
      let after = executed threads bound device in
      elim (dispatch_lem threads bound device) [
        | inl (f, e) ↦ inl (f, rw (e, run_bound) refl)
        | inr (e, whole) ↦ elim (Bool-cases (get_or (metal.contents status after) 0 0 == 0)) [
          | inr bad ↦ inl (thread_panicked, rw (e, bad, run_bound) refl)
          | inl good ↦ inr (
            metal.gpu_time after,
            after,
            rw (e, good, run_bound) refl,
            refl,
            refl,
            whole,
            (==_iff (get_or (metal.contents status after) 0 0) 0).0 good,
          )
        ]
      ]
