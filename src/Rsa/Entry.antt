-- ===== src/Rsa/Entry.antt =====
-- The kernel `sign` of examples/rsa/kernel/src/lib.rs, and `on_host` of examples/rsa/src/lib.rs. How the compiler
-- lays out a key and a message is a parameter: their types, with the bytes of a `Plain` type, and the numbers in
-- them. Only the arrays of 64 limbs are messages, so making one of a list is a parameter too.
pub mod Launched
mod Examples
use llvm_metal.Base.{
  ℕ, ◌*◌, ◌%◌, ◌^◌, Option, none, some, List, [], ◌∷◌, length, get_elem?, replicate, flat_map,
}
use llvm_metal.Kernel.Plain.{Plain}
use llvm_metal.Kernel.Host.{M, ◌>>=◌, pure, Buffers, thread_index, launch}
use llvm_metal.Kernel.Handles.{read, get, write}
use llvm_metal.Kernel.Values.{bytes, values}
use llvm_metal.Rsa.{SignKey, sign_one}

module _ {Key Message : Type 0} ⦃plain_key : Plain Key⦄ ⦃plain_message : Plain Message⦄
    (key_of : Key → SignKey) (limbs : Message → List ℕ) (message_of : List ℕ → Message) where
  -- The signature of a message, as the kernel writes it.
  abbrev pub signed : Key → Message → Message
  signed key message = message_of (sign_one (limbs message) (key_of key))

  -- `sign`
  pub sign : M (Unit {0})
  sign = read {T = Key} 0 >>= λ found. elim found [
    | none ↦ pure tt
    | some key ↦ thread_index >>= λ index. get {T = Message} 1 index >>= λ given. elim given [
      | none ↦ pure tt
      | some message ↦ write 2 index (signed key message)
    ]
  ]

  -- `on_host`; `messages.len() as u32` is exact for fewer than 2 ^ 32 messages.
  pub on_host : Key → List Message → Option (List Message)
  on_host key messages =
      let zeros = replicate (length messages * plain_message.size) 0 in
      let buffers : Buffers = bytes key ∷ flat_map bytes messages ∷ zeros ∷ [] in
      elim (launch (length messages % 2 ^ 32) buffers sign) [
        | none ↦ none
        | some after ↦ elim (get_elem? after 2) [ none ↦ none | some written ↦ values written ]
      ]
