-- ===== src/Runtime.antt =====
-- runtime/src/lib.rs: what a launch binds and refuses. Metal is not part of this repository: its calls are a
-- record, over a state of the device that holds the memory of the buffers.
pub mod Bound
pub mod Launched
mod Examples
use llvm_metal.Base.{
  ℕ, zero, suc, ◌*◌, Bool, true, false, Option, none, some, List, [], ◌∷◌, ◌++◌, map, length,
  get_or, take, drop, ltb, ◌==◌, if◌then◌else◌,
}

pub record Metal : Type 1 where
  pub Raw : Type 0
  pub Device : Type 0
  -- `MTLBuffer.length`, in bytes
  pub length_of : Raw → ℕ
  -- `newBufferWithLength_options`, of zeros
  pub new_buffer : ℕ → Device → Option (Raw × Device)
  -- `contents`, as the values of the buffer's type
  pub contents : Raw → Device → List ℕ
  -- The memory of a buffer after the host's turn with it.
  pub fill : Raw → List ℕ → Device → Device
  pub command_buffer : Device → Bool
  pub compute_encoder : Device → Bool
  pub execution_width : Device → ℕ
  -- The encoded command with its buffers and their indices, `threads` and the group, run to its end.
  pub execute : List (ℕ × Raw) → ℕ → ℕ → Device → Device
  pub completed : Device → Bool
  pub gpu_time : Device → ℕ

pub data Failure : Type 0 where
  too_few : ℕ → ℕ → Failure
  cannot_allocate : ℕ → Failure
  no_command_buffer no_encoder command_failed thread_panicked : Failure

pub data Outcome (A : Type 0) : Type 0 where
  done : A → Outcome A
  failed : Failure → Outcome A

-- `enumerate`, from an index on
pub numbered : {A : Type 0} → ℕ → List A → List (ℕ × A)
numbered index [] = []
numbered index (x ∷ xs) = (index, x) ∷ numbered (suc index) xs

-- `zip` of the slice and the lengths, and the assignments in its loop.
pub overwritten : List ℕ → List ℕ → List ℕ
overwritten [] new = []
overwritten (old ∷ olds) [] = old ∷ olds
overwritten (old ∷ olds) (n ∷ ns) = n ∷ overwritten olds ns

module _ (metal : Metal) where
  open metal use {Raw, Device}

  -- `Pipeline::buffer`, of values of `size` bytes
  pub buffer : ℕ → ℕ → Device → Outcome (Raw × Device)
  buffer size len device =
      let bytes = len * size in
      if ltb 0 bytes
      then elim (metal.new_buffer bytes device) [
        | none ↦ failed (cannot_allocate bytes)
        | some made ↦ done made
      ]
      else failed (cannot_allocate bytes)

  -- `dispatch`
  pub dispatch : ℕ → List Raw → Device → Outcome (ℕ × Device)
  dispatch threads buffers device =
      let after =
        metal.execute (numbered 0 buffers) threads (metal.execution_width device) device in
      elim (metal.command_buffer device) [
        | false ↦ failed no_command_buffer
        | true ↦ elim (metal.compute_encoder device) [
          | false ↦ failed no_encoder
          | true ↦
              if metal.completed after
              then done (metal.gpu_time after, after)
              else failed command_failed
        ]
      ]

  -- What `run` binds: its first `slots` buffers, the lengths, and the status.
  pub bound_of : List Raw → Raw → Raw → List Raw
  bound_of buffers lengths status = buffers ++ (lengths ∷ status ∷ [])

  -- The end of `run`, from the two buffers on.
  pub run_bound : ℕ → List Raw → Raw → Raw → Device → Outcome (ℕ × Device)
  run_bound threads buffers lengths status device =
      elim (dispatch threads (bound_of buffers lengths status) device) [
        | failed failure ↦ failed failure
        | done (elapsed, after) ↦
            if get_or (metal.contents status after) 0 0 == 0
            then done (elapsed, after)
            else failed thread_panicked
      ]

  -- `run`
  pub run : ℕ → ℕ → List Raw → Device → Outcome (ℕ × Device)
  run threads slots buffers device =
      let used = take slots buffers in
      let count = if ltb 1 (length used) then length used else 1 in
      if ltb (length buffers) slots
      then failed (too_few slots (length buffers))
      else elim (buffer 8 count device) [
        | failed failure ↦ failed failure
        | done (lengths, device1) ↦
            let device2 =
              metal.fill lengths
                (overwritten (metal.contents lengths device1) (map metal.length_of used)) device1 in
            elim (buffer 4 1 device2) [
              | failed failure ↦ failed failure
              | done (status, device3) ↦ run_bound threads used lengths status device3
            ]
      ]

  -- `buffer_from`
  pub buffer_from : ℕ → List ℕ → Device → Outcome (Raw × Device)
  buffer_from size values device = elim (buffer size (length values) device) [
    | failed failure ↦ failed failure
    | done (raw, after) ↦ done (raw, metal.fill raw values after)
  ]

  -- `launch`
  pub launch_all : ℕ → List Raw → Device → Outcome (ℕ × Device)
  launch_all threads buffers device = dispatch threads buffers device
