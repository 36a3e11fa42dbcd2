-- ===== src/Runtime/Launched.antt =====
-- `run` of runtime/src/lib.rs on every branch.
use llvm_metal.Base.{
  length-map, length-take, ℕ, ◌*◌, ◌<◌, ◌≤◌, ◌≡◌, ◌⊎◌, inl, inr, refl, sym, ◌∙◌, List, map, length,
  take, ltb, lt→ltb, le→ltb, if◌then◌else◌, arith,
}
use native.Mathlib.Decide.{dec_lt}
use llvm_metal.Runtime.{Metal, too_few, Outcome, done, failed, overwritten, bound_of, run}
use llvm_metal.Runtime.Bound.{
  IsMemory, IsFailed, IsRun, overwritten-whole, numbered-lem, buffer_lem, run_bound_lem,
}

module _ (metal : Metal) (memory : IsMemory metal) where
  open metal use {Raw, Device}

  abbrev pub Launches : ℕ → ℕ → List Raw → Outcome (ℕ × Device) → Type 0
  Launches threads slots buffers o =
      IsFailed metal o
      ⊎ ((elapsed : ℕ) × (after : Device) × (o ≡ done (elapsed, after))
          × IsRun metal threads slots buffers elapsed after)

  enough :
      (threads slots : ℕ) (buffers : List Raw) (device : Device)
      → 0 < slots
      → slots ≤ length buffers
      → Launches threads slots buffers (run metal threads slots buffers device)
  unfolding run bound_of
  enough threads slots buffers device some_slots h =
      let used = take slots buffers in
      let size : length used ≡ slots = length-take slots buffers h in
      let count = if ltb 1 (length used) then length used else 1 in
      let counted : count ≡ slots = ground arith in
      let new = map metal.length_of used in
      let given = le→ltb (length buffers) slots h in
      elim (buffer_lem metal 8 count device) [
        | inl (f, e) ↦ inl (f, rw (given, e, run) refl)
        | inr (lengths, device1, e1, made1) ↦
            let room = memory.sized count device device1 lengths made1 in
            let fits : length (metal.contents lengths device1) ≡ length new =
              room ∙ counted ∙ sym (length-map metal.length_of used ∙ size) in
            let filled = overwritten-whole (metal.contents lengths device1) new fits in
            let device2 =
              metal.fill lengths (overwritten (metal.contents lengths device1) new) device1 in
            elim (buffer_lem metal 4 1 device2) [
              | inl (f, e) ↦ inl (f, rw (given, e1, e, run) refl)
              | inr (status, device3, e3, made3) ↦
                  let kept =
                    memory.kept (count * 8) (1 * 4) device device1 device3 lengths status _ made1
                      made3 in
                  let (each, at_lengths, at_status) =
                    numbered-lem 0 slots buffers lengths status h in
                  elim (run_bound_lem metal threads used lengths status device3) [
                    | inl (f, e) ↦ inl (f, rw (given, e1, e3, run) e)
                    | inr (elapsed, after, e, ran, time, ended, healthy) ↦ inr (
                      elapsed,
                      after,
                      rw (given, e1, e3, run) e,
                      record {
                        lengths = lengths;
                        status = status;
                        before = device3;
                        ran = ran;
                        time = time;
                        ended = ended;
                        healthy = healthy;
                        written = kept ∙ filled;
                        each = each;
                        lengths_at = at_lengths;
                        status_at = at_status;
                      },
                    )
                  ]
            ]
      ]

  -- `run` with fewer buffers than the kernel names is refused with the two counts. Otherwise, where the kernel
  -- names a buffer, it fails, or it has run the command with buffer i at index i, the lengths of the buffers in
  -- bytes at index `slots` and the status at the next, the command has ended, and the status reads 0.
  pub run_lem :
      (threads slots : ℕ) (buffers : List Raw) (device : Device)
      → 0 < slots
      → ((length buffers < slots)
          × (run metal threads slots buffers device ≡ failed (too_few slots (length buffers))))
        ⊎ ((slots ≤ length buffers)
            × Launches threads slots buffers (run metal threads slots buffers device))
  unfolding run
  run_lem threads slots buffers device some_slots = elim (dec_lt (length buffers) slots) [
    | yes few ↦ inl (few, let e = lt→ltb (length buffers) slots few in rw (e, run) refl)
    | no other ↦
        let h : slots ≤ length buffers = omega arith in
        inr (h, enough threads slots buffers device some_slots h)
  ]
