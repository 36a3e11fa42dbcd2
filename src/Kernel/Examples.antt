-- ===== src/Kernel/Examples.antt =====
-- kernel/src/lib.rs on a buffer of three bytes, for values of one byte.
use llvm_metal.Base.{ℕ, ◌≡◌, refl, some, List, [], ◌∷◌, arith}
use llvm_metal.Kernel.Plain.{Plain}
use llvm_metal.Kernel.Host.{Host}
use llvm_metal.Kernel.Handles.{get, write}
use llvm_metal.Kernel.Writes.{with_buffer, IsPatched, write_lem, get-write}

abbrev pub one_byte : Plain ℕ
one_byte = record {
  size = 1;
  to_bytes = λ value. value ∷ [];
  from_bytes = λ bytes. elim bytes [ [] ↦ 0 | byte ∷ _ ↦ byte ];
  length-to_bytes = λ value. refl;
  from_bytes-to_bytes = λ value. refl;
}

abbrev contents : List ℕ
contents = 10 ∷ 20 ∷ 30 ∷ []

abbrev host : Host
host = record { thread = 0; buffers = contents ∷ [] }

write_lem_example :
    (after : List ℕ) × (write ⦃plain = one_byte⦄ 0 1 99 host ≡ some (tt, with_buffer host 0 after))
    × IsPatched contents 1 (99 ∷ []) after
write_lem_example =
    write_lem ⦃plain = one_byte⦄ 0 host contents refl (omega arith) (omega arith) 1 99 (omega arith)

get-write_example :
    (after : List ℕ) × (write ⦃plain = one_byte⦄ 0 1 99 host ≡ some (tt, with_buffer host 0 after))
    × (get ⦃plain = one_byte⦄ 0 1 (with_buffer host 0 after)
        ≡ some (some 99, with_buffer host 0 after))
    × (get ⦃plain = one_byte⦄ 0 2 host ≡ some (some 30, host))
    × (get ⦃plain = one_byte⦄ 0 2 (with_buffer host 0 after)
        ≡ some (some 30, with_buffer host 0 after))
get-write_example =
    get-write ⦃plain = one_byte⦄ 0 host contents refl (omega arith) (omega arith) 1 2 99
      (omega arith) (λ e. omega arith)
