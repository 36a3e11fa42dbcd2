-- ===== src/Compiler/Lower/Operations.antt =====
-- A module that compiler/src/verify.rs accepted gives `operation` of compiler/src/lower/context.rs no
-- slot without a buffer.
use Prim.Native.String.{String}
use text.Mathlib.Text.{◌==◌ as str_eq}
use llvm_metal.Base.{
  ℕ, zero, suc, ◌+◌, ◌<◌, ◌≤◌, ◌≡◌, ◌≢◌, refl, ◌∙◌, true, false, Option, none, some, List, [], Memᴰ,
  arith, length, get_elem?, if◌then◌else◌, Bool-cases, inl, inr, any, map, range, length-map,
  length-range, get_elem?-some,
}
use llvm_metal.Compiler.Llvm.{Llvm}
use llvm_metal.Compiler.Ir.{functions, instructions, defined, callee}
use llvm_metal.Compiler.Verify.{verify, slots as slot_limit, names_slot}
use llvm_metal.Compiler.Verify.Accepted.{IsAccepted, verify_iff}
use llvm_metal.Compiler.Verify.Laws.{IsModule}
use llvm_metal.Compiler.Ir.Walks.{instructions-empty}
use mathlib.Core.List.Memᴰ
use llvm_metal.Compiler.Lower.{
  Launch, Outcome, Built, slots, slot_of, buffer_element, stored, operation,
}
use llvm_metal.Compiler.Lower.Slots.{slots-le_iff}

-- The arguments that a device operation takes.
abbrev pub arity : String → ℕ
arity name =
    if str_eq "llvm_metal.store" name
    then 3
    else if str_eq "llvm_metal.load" name
    then 2
    else if str_eq "llvm_metal.length" name
    then 1
    else 0

first_argument {ℓ} :
    {A : Type ℓ} (f : ℕ → A) (count : ℕ)
    → 0 < count
    → get_elem? (map f (range count)) 0 ≡ some (f 0)
first_argument f zero h = absurd (omega arith)
first_argument f (suc count) h = refl

declared : (l : Llvm) (f : l.Value) → defined l f ≡ false → l.is_declaration f ≡ true
unfolding defined
declared l f d = ground arith

module _ (l : Llvm) where
  open l use {Value}

  -- The arguments that `rewrite_calls` reads off a call with `count` of them.
  abbrev pub arguments : Value → ℕ → List Value
  arguments call count = map (l.get_operand call) (range count)

  buffer_element-some :
      (xs : List Value) (x : Launch Value) (built : Value → Value → Option (Outcome Value))
      (slot : Value)
      → 2 ≤ length xs
      → get_elem? xs 0 ≡ some slot
      → slot_of l slot < length x.buffers
      → ((base index : Value) → built base index ≢ none)
      → buffer_element l xs x built ≢ none
  unfolding buffer_element
  buffer_element-some xs x built slot h e below total =
      let (base, p) = get_elem?-some x.buffers (slot_of l slot) below in
      let (index, q) = get_elem?-some xs 1 (omega arith) in
      rw (buffer_element, e, p, q) (total base index)

  -- A slot that an accepted call names is below the count of slots, and that below the limit.
  slot_of-lt :
      (accepted : IsAccepted l) (f call t : Value)
      → Memᴰ f (functions l)
      → defined l f ≡ true
      → Memᴰ call (instructions l f)
      → l.is_a_call_inst call ≡ true
      → callee l call ≡ some t
      → names_slot (l.value_name t) ≡ true
      → (slot_of l (l.get_operand call 0) < slots l)
        × (slot_of l (l.get_operand call 0) < slot_limit)
  unfolding slot_of
  slot_of-lt accepted f call t mf d mc c e s =
      let (_, below) = (accepted.plain f call mf d mc).constant_slot t c e s in
      let counted = (slots-le_iff l (slots l)).0 (omega arith) f call t mf mc c e s in
      (omega arith, omega arith)

  operation-some :
      (name : String) (xs : List Value) (x : Launch Value) (slot : Value)
      → arity name ≤ length xs
      → (0 < length xs → get_elem? xs 0 ≡ some slot)
      → (names_slot name ≡ true → slot_of l slot < length x.buffers)
      → operation l name xs x ≢ none
  unfolding operation names_slot any stored
  operation-some name xs x slot enough first below =
      elim (Bool-cases (str_eq "llvm_metal.load" name)) [
        | inl g ↦
            let many : 2 ≤ length xs = ground arith in
            let total =
              buffer_element-some xs x
                (λ base index. some (Outcome.replace_built (Built.load_byte base index))) slot many
                (first (omega arith)) (below (ground arith)) (λ base index e. ground arith) in
            ground arith
        | inr g ↦ elim (Bool-cases (str_eq "llvm_metal.store" name)) [
          | inl i ↦
              let many : 3 ≤ length xs = ground arith in
              let (byte, q) = get_elem?-some xs 2 (omega arith) in
              let total =
                buffer_element-some xs x (stored l xs) slot (omega arith) (first (omega arith))
                  (below (ground arith)) (rw (stored, q) (λ base index e. ground arith)) in
              ground arith
          | inr i ↦ elim (Bool-cases (str_eq "llvm_metal.length" name)) [
            | inl j ↦ let (first_one, q) = get_elem?-some xs 0 (ground arith) in ground arith
            | inr j ↦ ground arith
          ]
        ]
      ]

-- For a module that `verify` accepted, a call in it of an operation with the arguments it takes, and a
-- launch with as many buffers as `slots` counts, `operation` does not index out of bounds.
pub operation-total :
    (l : Llvm) (f call t : l.Value) (count : ℕ) (x : Launch l.Value)
    → IsModule l
    → verify l ≡ []
    → Memᴰ f (functions l)
    → defined l f ≡ true
    → Memᴰ call (instructions l f)
    → l.is_a_call_inst call ≡ true
    → callee l call ≡ some t
    → arity (l.value_name t) ≤ count
    → length x.buffers ≡ slots l
    → operation l (l.value_name t) (arguments l call count) x ≢ none
operation-total l f call t count x laws quiet mf d mc c e enough size =
    let accepted = (verify_iff l laws).0 quiet in
    let many : length (arguments l call count) ≡ count =
      length-map (l.get_operand call) (range count) ∙ length-range count in
    operation-some l (l.value_name t) (arguments l call count) x (l.get_operand call 0)
      (omega arith) (λ h. first_argument (l.get_operand call) count (omega arith))
      (λ s. let (a, _) = slot_of-lt l accepted f call t mf d mc c e s in omega arith)

-- A module that `verify` accepted names at most 29 buffers, so that with the lengths and the status word
-- a launch binds at most 31.
pub slots-le : (l : Llvm) → IsModule l → verify l ≡ [] → slots l + 2 ≤ 31
slots-le l laws quiet =
    let accepted = (verify_iff l laws).0 quiet in
    let every : slots l ≤ 29 = (slots-le_iff l 29).1 (λ f call t mf mc c e s.
      elim (Bool-cases (defined l f)) [
        | inl d ↦ let (_, b) = slot_of-lt l accepted f call t mf d mc c e s in omega arith
        | inr d ↦ absurd (
            Memᴰ.not-nil
              (rw (instructions-empty l f (laws.declaration_empty f (declared l f d))) at mc))
      ]) in
    omega arith
