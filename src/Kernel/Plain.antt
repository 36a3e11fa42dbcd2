-- ===== src/Kernel/Plain.antt =====
-- The trait `Plain` of kernel/src/lib.rs: any bit pattern is a value, and there is no padding. So a
-- type of `size` bytes and the lists of `size` bytes are the same thing.
use llvm_metal.Base.{ℕ, ◌≡◌, List, length}

pub record Plain (T : Type 0) : Type 0 where
  -- `size_of::<T>()`
  pub size : ℕ
  pub to_bytes : T → List ℕ
  pub from_bytes : List ℕ → T
  pub length-to_bytes : (value : T) → length (to_bytes value) ≡ size
  pub from_bytes-to_bytes : (value : T) → from_bytes (to_bytes value) ≡ value
