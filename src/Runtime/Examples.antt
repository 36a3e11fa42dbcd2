-- ===== src/Runtime/Examples.antt =====
-- runtime/src/lib.rs over a device whose memory is a function from buffers to values, and whose commands change
-- nothing.
use llvm_metal.Base.{
  ℕ, suc, ◌*◌, ◌/◌, ◌<◌, ◌≤◌, ◌≡◌, ◌⊎◌, sym, ◌∙◌, ap, true, some, List, [], ◌∷◌, length,
  length-replicate, replicate, ◌==◌, if◌then◌else◌, arith,
}
use llvm_metal.Runtime.{Metal, too_few, failed, run}
use llvm_metal.Runtime.Bound.{IsMemory}
use llvm_metal.Runtime.Launched.{Launches, run_lem}

-- The count of the buffers made, and the memory.
abbrev pub Memory : Type 0
Memory = ℕ × (ℕ → List ℕ)

abbrev sample : Metal
sample = record {
  Raw = ℕ;
  Device = Memory;
  length_of = λ raw. 16;
  new_buffer = λ bytes (made, held).
      some (made, (suc made, λ k. if k == made then replicate (bytes / 8) 0 else held k));
  contents = λ raw (made, held). held raw;
  fill = λ raw values (made, held). (made, λ k. if k == raw then values else held k);
  command_buffer = λ device. true;
  compute_encoder = λ device. true;
  execution_width = λ device. 32;
  execute = λ bound threads group device. device;
  completed = λ device. true;
  gpu_time = λ device. 7;
}

sample-sized :
    (count : ℕ) (device after : Memory) (raw : ℕ)
    → sample.new_buffer (count * 8) device ≡ some (raw, after)
    → length (sample.contents raw after) ≡ count
sample-sized count (made, held) (made', held') raw e =
    let first : made ≡ raw = cc in
    let same : (λ (k : ℕ). if k == made then replicate (count * 8 / 8) 0 else held k) ≡ held' =
      cc in
    let at : held' raw ≡ (if raw == made then replicate (count * 8 / 8) 0 else held raw) =
      sym (ap (λ (f : ℕ → List ℕ). f raw) same) in
    let bytes : count * 8 / 8 ≡ count = omega arith in
    let whole : held' raw ≡ replicate (count * 8 / 8) 0 = ground arith in
    ap (λ (r : List ℕ). length r) whole ∙ length-replicate (count * 8 / 8) 0 ∙ bytes

sample-kept :
    (bytes others : ℕ) (device first second : Memory) (raw other : ℕ) (written : List ℕ)
    → sample.new_buffer bytes device ≡ some (raw, first)
    → sample.new_buffer others (sample.fill raw written first) ≡ some (other, second)
    → sample.contents raw second ≡ written
sample-kept bytes others (made, held) (made1, held1) (made2, held2) raw other written e f =
    let same : made ≡ raw = cc in
    let next : suc made ≡ made1 = cc in
    let held_is : (λ (k : ℕ).
      if k == made1 then replicate (others / 8) 0 else (if k == raw then written else held1 k))
        ≡ held2 =
      cc in
    let at = sym (ap (λ (g : ℕ → List ℕ). g raw) held_is) in ground arith

sample-IsMemory : IsMemory sample
sample-IsMemory = record { sized = sample-sized; kept = sample-kept }

abbrev two_buffers : List ℕ
two_buffers = 3 ∷ 4 ∷ []

abbrev start : Memory
start = (5, λ k. [])

run_lem_example :
    ((length two_buffers < 2)
      × (run sample 100 2 two_buffers start ≡ failed (too_few 2 (length two_buffers))))
    ⊎ ((2 ≤ length two_buffers)
        × Launches sample sample-IsMemory 100 2 two_buffers (run sample 100 2 two_buffers start))
run_lem_example = run_lem sample sample-IsMemory 100 2 two_buffers start (omega arith)
