-- ===== src/Kernel/Host.antt =====
-- kernel/src/host.rs: the four device operations and `launch` on the host. `THREAD` and `BUFFERS`
-- are the state; `none` is a panic (an index out of bounds).
use llvm_metal.Base.{
  ℕ, zero, suc, ◌%◌, ◌^◌, Option, none, some, List, length, get_elem?, set, ltb, if◌then◌else◌,
}

-- A buffer is its bytes.
abbrev pub Buffers : Type 0
Buffers = List (List ℕ)

pub record Host : Type 0 where
  pub thread : ℕ
  pub buffers : Buffers

abbrev pub M {ℓ} : Type ℓ → Type ℓ
M A = Host → Option (A × Host)

infixl 5 ◌>>=◌ ◌>>◌
abbrev pub ◌>>=◌ {ℓ κ} : {A : Type ℓ} {B : Type κ} → M A → (A → M B) → M B
◌>>=◌ m f h = elim (m h) [ none ↦ none | some (a, h') ↦ f a h' ]

abbrev pub ◌>>◌ {ℓ κ} : {A : Type ℓ} {B : Type κ} → M A → M B → M B
m >> k = m >>= λ _. k

abbrev pub pure {ℓ} : {A : Type ℓ} → A → M A
pure a h = some (a, h)

abbrev pub u64 : ℕ → ℕ
u64 n = n % 2 ^ 64

unfoldable pub thread_index : M ℕ
thread_index h = some (h.thread, h)

-- `length(slot)`, in bytes
unfoldable pub buffer_length : ℕ → M ℕ
buffer_length slot h = elim (get_elem? h.buffers slot) [
  | none ↦ none
  | some buffer ↦ some (u64 (length buffer), h)
]

unfoldable pub load : ℕ → ℕ → M ℕ
load slot offset h = elim (get_elem? h.buffers slot) [
  | none ↦ none
  | some buffer ↦ elim (get_elem? buffer offset) [ none ↦ none | some byte ↦ some (byte, h) ]
]

unfoldable pub store : ℕ → ℕ → ℕ → M (Unit {0})
store slot offset byte h = elim (get_elem? h.buffers slot) [
  | none ↦ none
  | some buffer ↦
      if ltb offset (length buffer)
      then some (tt, record h { buffers = set h.buffers slot (set buffer offset byte) })
      else none
]

-- The loop of `launch`, from thread `first` on.
unfoldable pub launch_from : M (Unit {0}) → ℕ → ℕ → Buffers → Option Buffers
launch_from kernel first zero buffers = some buffers
launch_from kernel first (suc left) buffers =
    elim (kernel (record { thread = first; buffers = buffers })) [
      | none ↦ none
      | some (_, h) ↦ launch_from kernel (suc first) left h.buffers
    ]

unfoldable pub launch : ℕ → Buffers → M (Unit {0}) → Option Buffers
unfolding launch_from
launch threads buffers kernel = launch_from kernel 0 threads buffers
