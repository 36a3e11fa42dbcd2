-- ===== src/Rsa/Entry/Launched.antt =====
-- `on_host` of examples/rsa/src/lib.rs signs every message.
use llvm_metal.Base.{
  ℕ, ◌+◌, ◌*◌, ◌%◌, ◌^◌, ◌<◌, ◌≡◌, refl, ◌∙◌, ap, some, List, [], ◌∷◌, map, flat_map, length,
  length-replicate, get_or, replicate, arith,
}
use native.Mathlib.Nat.{mod-eq_of_lt}
use llvm_metal.Kernel.Plain.{Plain}
use llvm_metal.Kernel.Host.{Host, Buffers, thread_index}
use llvm_metal.Kernel.Handles.{read, get, write}
use llvm_metal.Kernel.Values.{bytes}
use llvm_metal.Kernel.Launches.{launch_lem}
use llvm_metal.Kernel.Bound.{map-get_or, read-bytes, get-bytes}
use llvm_metal.Rsa.{SignKey}
use llvm_metal.Rsa.Entry.{signed, sign, on_host}

module _ {Key Message : Type 0} ⦃plain_key : Plain Key⦄ ⦃plain_message : Plain Message⦄
    (key_of : Key → SignKey) (limbs : Message → List ℕ) (message_of : List ℕ → Message) (key : Key)
    (messages : List Message) (key_small : plain_key.size < 2 ^ 64)
    (positive : 0 < plain_message.size) (small : length messages * plain_message.size < 2 ^ 64)
    (few : length messages < 2 ^ 32) where
  sign_step :
      (h : Host) (message : Message)
      → read {T = Key} 0 h ≡ some (some key, h)
      → get {T = Message} 1 h.thread h ≡ some (some message, h)
      → sign key_of limbs message_of h
        ≡ write 2 h.thread (signed key_of limbs message_of key message) h
  unfolding sign thread_index
  sign_step h message found given = ground arith

  buffers : List ℕ → Buffers
  buffers out = bytes key ∷ flat_map bytes messages ∷ out ∷ []

  -- What a thread of `sign` does.
  sign_lem :
      (thread : ℕ) (out : List ℕ) (d : Message)
      → thread < length messages
      → sign key_of limbs message_of (record { thread = thread; buffers = buffers out })
        ≡ write 2 thread
            (signed key_of limbs message_of key (get_or messages thread d))
            (record { thread = thread; buffers = buffers out })
  unfolding buffers bytes
  sign_lem thread out d h =
      let host : Host = record { thread = thread; buffers = buffers out } in
      let read_key = read-bytes 0 host key refl key_small in
      let got = get-bytes 1 host messages thread d refl positive small h in
      sign_step host (get_or messages thread d) read_key got

  -- For fewer than 2 ^ 32 messages, and buffers of fewer than 2 ^ 64 bytes, `on_host` does not panic: thread i
  -- signs message i, and the values read back are what `sign_one` makes of the messages, in order.
  pub on_host_lem :
      on_host key_of limbs message_of key messages
      ≡ some (map (signed key_of limbs message_of key) messages)
  unfolding on_host buffers
  on_host_lem =
      let d : Message = message_of [] in
      let total = length messages in
      let zeros : List ℕ = replicate (total * plain_message.size) 0 in
      let threads : total % 2 ^ 32 ≡ total = mod-eq_of_lt few in
      let made = λ (j : ℕ). signed key_of limbs message_of key (get_or messages j d) in
      let (final, ran, read_back) =
        launch_lem made (sign key_of limbs message_of) 2 total buffers positive small (λ out. refl)
          (λ out after. refl) (λ thread out h e. sign_lem thread out d h) zeros
          (length-replicate (total * plain_message.size) 0) in
      let all =
        map-get_or (signed key_of limbs message_of key) messages messages d 0
          (λ j. let e : 0 + j ≡ j = omega arith in ap (λ (k : ℕ). get_or messages k d) e) in
      rw (threads, ran, on_host) (read_back ∙ ap some all)
