-- ===== src/Kernel/Handles.antt =====
-- kernel/src/lib.rs: the handles `In` and `Out`, and the byte loops behind them. A handle holds no
-- data, so each method takes the slot.
use llvm_metal.Base.{
  ℕ, zero, suc, ◌*◌, ◌/◌, Option, none, some, List, [], ◌∷◌, ltb, leb, ◌==◌, if◌then◌else◌,
}
use llvm_metal.Kernel.Plain.{Plain}
use llvm_metal.Kernel.Host.{M, ◌>>=◌, ◌>>◌, pure, u64, buffer_length, load, store}

-- The loop of `load`: the bytes from `start` on, `left` of them.
unfoldable pub load_bytes : ℕ → ℕ → ℕ → M (List ℕ)
load_bytes slot start zero = pure []
load_bytes slot start (suc left) =
    let rest = load_bytes slot (suc start) left in
    load slot (u64 start) >>= λ byte. rest >>= λ bytes. pure (byte ∷ bytes)

-- The loop of `write`: the bytes of the value, stored from `start` on.
unfoldable pub store_bytes : ℕ → ℕ → List ℕ → M (Unit {0})
store_bytes slot start [] = pure tt
store_bytes slot start (byte ∷ bytes) =
    let rest = store_bytes slot (suc start) bytes in store slot (u64 start) byte >> rest

-- `len` of both handles to a slice, for elements of `size` bytes; dividing by a size of 0 panics.
unfoldable pub len : ℕ → ℕ → M ℕ
len size slot =
    buffer_length slot >>= λ bytes. if size == 0 then (λ h. none) else pure (bytes / size)

module _ {T : Type 0} ⦃plain : Plain T⦄ where
  unfoldable pub load_value : ℕ → ℕ → M T
  load_value slot start =
      load_bytes slot start plain.size >>= λ bytes. pure (plain.from_bytes bytes)

  -- `In<T>::read`
  unfoldable pub read : ℕ → M (Option T)
  read slot = buffer_length slot >>= λ bytes.
      if leb plain.size bytes then (load_value slot 0 >>= λ value. pure (some value)) else pure none

  -- `In<[T]>::get`
  unfoldable pub get : ℕ → ℕ → M (Option T)
  unfolding len
  get slot index = len plain.size slot >>= λ count.
      if ltb index count
      then (load_value slot (u64 (index * plain.size)) >>= λ value. pure (some value))
      else pure none

  -- `Out<[T]>::write`
  unfoldable pub write : ℕ → ℕ → T → M (Unit {0})
  unfolding len
  write slot index value = len plain.size slot >>= λ count.
      if leb count index
      then pure tt
      else store_bytes slot (u64 (index * plain.size)) (plain.to_bytes value)
