-- ===== src/Compiler/Verify/Accepted.antt =====
-- `verify` of compiler/src/verify.rs against its rules: what a module without violations is.
use Prim.Native.String.{String}
use llvm_metal.Base.{
  ◌<◌, ◌≡◌, ◌≢◌, refl, ◌↔◌, inl, inr, true, false, none, some, List, [], ◌∷◌, map, Memᴰ, arith, any,
  any_iff, Bool-cases, Option-cases, flat_map, flat_map-eq-nil, flat_map-nil, append-eq-nil,
}
use mathlib.Core.List.Memᴰ
use llvm_metal.Compiler.Llvm.{Llvm, Opcode}
use llvm_metal.Compiler.Ir.{functions, globals, instructions, operands, defined, callee}
use llvm_metal.Compiler.Verify.{
  verify, slots, known_name, names_slot, wide, broken, broken_rule, reaches_itself, is_int_to_ptr,
  global_violations, function_violations, recursion_violations, instruction_violations,
  recursion_violations,
}
use llvm_metal.Compiler.Verify.Laws.{IsModule}
use llvm_metal.Compiler.Verify.Wide.{IsWide, wide_iff}
use llvm_metal.Compiler.Verify.Constants.{Holds, LeadsToGlobal, addresses_only_constants_iff}
use llvm_metal.Compiler.Verify.Recursion.{CallPath}
use llvm_metal.Compiler.Verify.Recursion.Rounds.{reaches_itself_iff}

module _ (l : Llvm) where
  open l use {Value}

  -- What `verify` tests of an instruction for `Rule::NoIntegerToPointer`, `NativeInteger`, `DirectCall` and
  -- `ConstantSlot`: its opcode, the types of its result and operands, and its call. It looks at no constant
  -- expression among the operands, and at no type that only an attribute of the instruction names.
  pub record IsPlain (i : Value) : Type 0 where
    pub not_int_to_ptr : l.instruction_opcode i ≢ Opcode.int_to_ptr
    pub native_result : ¬ IsWide l (l.type_of i)
    pub native_operands : (o : Value) → Memᴰ o (operands l i) → ¬ IsWide l (l.type_of o)
    pub direct_call : l.is_a_call_inst i ≡ true → (t : Value) × (callee l i ≡ some t)
    pub constant_slot :
        (t : Value)
        → l.is_a_call_inst i ≡ true
        → callee l i ≡ some t
        → names_slot (l.value_name t) ≡ true
        → (l.is_a_constant_int (l.get_operand i 0) ≡ true)
          × (l.const_int_zext_value (l.get_operand i 0) < slots)

  -- `Rule::ConstantData` of a global.
  unfoldable pub IsConstantData : Value → Type 0
  IsConstantData g =
      (c : Value) × (l.is_global_constant g ≡ true)
      × (l.get_initializer g ≡ some c)
      × ((a : Value) → Holds l c a → LeadsToGlobal l a)

  -- What `verify` tests for every rule, of every global, function and instruction.
  pub record IsAccepted : Type 0 where
    pub constant_data : (g : Value) → Memᴰ g (globals l) → IsConstantData g
    pub known_function :
        (f : Value)
        → Memᴰ f (functions l)
        → defined l f ≡ false
        → known_name (l.value_name f) ≡ true
    pub no_recursion : (f : Value) → Memᴰ f (functions l) → defined l f ≡ true → ¬ CallPath l f f
    pub plain :
        (f i : Value)
        → Memᴰ f (functions l)
        → defined l f ≡ true
        → Memᴰ i (instructions l f)
        → IsPlain i

module _ (l : Llvm) (laws : IsModule l) where
  open l use {Value}

  abbrev types : Value → List l.Ty
  types i = l.type_of i ∷ map l.type_of (operands l i)

  no-IsWide_type :
      {i : Value} (ty : l.Ty)
      → Memᴰ ty (types i)
      → IsWide l ty
      → (¬ IsWide l (l.type_of i))
      → ¬ ((o : Value) → Memᴰ o (operands l i) → ¬ IsWide l (l.type_of o))
  no-IsWide_type ty (Memᴰ.head e) w r os = r (rw e at w)
  no-IsWide_type {i} ty (Memᴰ.tail m) w r os =
      let (o, k, e) = Memᴰ.of_map l.type_of (operands l i) m in os o k (rw (← e) at w)

  -- No type of the instruction or its operands is wide.
  narrow_iff :
      (i : Value)
      → (any (wide l) (types i) ≡ false) ↔ (
          (¬ IsWide l (l.type_of i))
          × ((o : Value) → Memᴰ o (operands l i) → ¬ IsWide l (l.type_of o)))
  narrow_iff i = (
    λ h. (
      λ w.
          cc
            ((any_iff (wide l) (types i)).1 (l.type_of i, Memᴰ.head refl, (wide_iff l laws _).1 w)),
      λ o m w. cc (
          (any_iff (wide l) (types i)).1
            (l.type_of o, Memᴰ.tail (Memᴰ.map l.type_of m), (wide_iff l laws _).1 w)),
    ),
    λ (r, os). elim (Bool-cases (any (wide l) (types i))) [
      | inr e ↦ e
      | inl e ↦
          let (ty, m, w) = (any_iff (wide l) (types i)).0 e in
          absurd (no-IsWide_type ty m ((wide_iff l laws ty).0 w) r os)
    ],
  )

  IsPlain-of_none : (i : Value) → broken_rule l i ≡ none → IsPlain l i
  unfolding broken_rule is_int_to_ptr
  IsPlain-of_none i h =
      let (result, operand) = (narrow_iff i).0 (ground arith) in
      record {
        not_int_to_ptr = λ e. ground arith;
        native_result = result;
        native_operands = operand;
        direct_call = λ c. elim (Option-cases (callee l i)) [
          | inl e ↦ absurd (ground arith)
          | inr (t, e) ↦ (t, e)
        ];
        constant_slot = λ t c e n. (ground arith, ground arith);
      }

  IsPlain-not_int_to_ptr : (o : Opcode) → o ≢ Opcode.int_to_ptr → is_int_to_ptr o ≡ false
  unfolding is_int_to_ptr
  IsPlain-not_int_to_ptr Opcode.int_to_ptr h = absurd (h refl)
  IsPlain-not_int_to_ptr _ h = refl

  none_of_IsPlain : (i : Value) → IsPlain l i → broken_rule l i ≡ none
  unfolding broken_rule
  none_of_IsPlain i p =
      let narrow = (narrow_iff i).1 (p.native_result, p.native_operands) in
      let opcode = IsPlain-not_int_to_ptr (l.instruction_opcode i) p.not_int_to_ptr in
      elim (Bool-cases (l.is_a_call_inst i)) [
        | inr e ↦ ground arith
        | inl e ↦ let (t, c) = p.direct_call e in ground (arith, p.constant_slot t e c)
      ]

  instruction_violations-nil :
      (name : String) (i : Value)
      → (instruction_violations l name i ≡ []) ↔ (broken_rule l i ≡ none)
  unfolding instruction_violations broken
  instruction_violations-nil name i = ground arith

  global_violations-nil : (g : Value) → (global_violations l g ≡ []) ↔ IsConstantData l g
  unfolding global_violations IsConstantData
  global_violations-nil g = elim (Option-cases (l.get_initializer g)) [
    | inl e ↦ (λ h. absurd (ground arith), λ (c, _, q, _). absurd (cc))
    | inr (c, e) ↦
        let only = addresses_only_constants_iff l laws c (laws.initializer_constant g c e) in
        (
          λ h. (c, ground arith, e, only.0 (ground arith)),
          λ (c', k, q, leads).
              let same : c' ≡ c = cc in let accepted = only.1 (rw same at leads) in ground arith,
        )
  ]

  parts :
      (f : Value)
      → defined l f ≡ true
      → function_violations l f ≡ []
      → (recursion_violations l f ≡ [])
        × (flat_map (instruction_violations l (l.value_name f)) (instructions l f) ≡ [])
  unfolding function_violations
  parts f d h =
      append-eq-nil (recursion_violations l f)
        (flat_map (instruction_violations l (l.value_name f)) (instructions l f))
        (rw (d, function_violations) at h)

  function_violations-nil :
      (f : Value)
      → function_violations l f ≡ []
      → (defined l f ≡ false → known_name (l.value_name f) ≡ true)
        × (defined l f ≡ true → ¬ CallPath l f f)
        × (defined l f ≡ true → (i : Value) → Memᴰ i (instructions l f) → IsPlain l i)
  unfolding function_violations recursion_violations
  function_violations-nil f h = (
    λ d. ground arith,
    λ d p.
        let (first, _) = parts f d h in let e = (reaches_itself_iff l laws f).1 p in ground arith,
    λ d i m.
        let (_, second) = parts f d h in
        let none_i = flat_map-eq-nil (instruction_violations l (l.value_name f)) _ second i m in
        IsPlain-of_none i ((instruction_violations-nil _ i).0 none_i),
  )

  function_violations-empty :
      (f : Value)
      → (defined l f ≡ false → known_name (l.value_name f) ≡ true)
      → (defined l f ≡ true → ¬ CallPath l f f)
      → (defined l f ≡ true → (i : Value) → Memᴰ i (instructions l f) → IsPlain l i)
      → function_violations l f ≡ []
  unfolding function_violations
  function_violations-empty f known loops plain = elim (Bool-cases (defined l f)) [
    | inr d ↦ let k = known d in ground arith
    | inl d ↦ elim (Bool-cases (reaches_itself l f)) [
      | inl r ↦ absurd (loops d ((reaches_itself_iff l laws f).0 r))
      | inr r ↦
          rw (d, function_violations, r)
            (flat_map-nil (instruction_violations l (l.value_name f)) (instructions l f)
              (λ i m. (instruction_violations-nil _ i).1 (none_of_IsPlain i (plain d i m))))
    ]
  ]

  IsAccepted_of_nil : verify l ≡ [] → IsAccepted l
  unfolding verify
  IsAccepted_of_nil h =
      let (no_global, no_function) =
        append-eq-nil (flat_map (global_violations l) (globals l))
          (flat_map (function_violations l) (functions l)) h in
      let each = λ (f : Value) (m : Memᴰ f (functions l)).
        function_violations-nil f (flat_map-eq-nil (function_violations l) _ no_function f m) in
      record {
        constant_data = λ g m.
            (global_violations-nil g).0 (flat_map-eq-nil (global_violations l) _ no_global g m);
        known_function = λ f m. (each f m).0;
        no_recursion = λ f m. (each f m).1;
        plain = λ f i m d. (each f m).2 d i;
      }

  nil_of_IsAccepted : IsAccepted l → verify l ≡ []
  unfolding verify
  nil_of_IsAccepted a =
      rw
        (flat_map-nil (global_violations l) (globals l)
          (λ g m. (global_violations-nil g).1 (a.constant_data g m)))
        (flat_map-nil (function_violations l) (functions l) λ f m.
          function_violations-empty f (a.known_function f m) (a.no_recursion f m)
            (λ d i k. a.plain f i m d k))

  -- `verify` reports no violation exactly when every global, function and instruction of the module passes what
  -- it tests for each rule: a global is constant and its addresses lead to globals, a declared function is known, no
  -- function is on a path of calls back to itself, and an instruction is no `inttoptr`, has no wide result or
  -- operand, calls a function directly, and gives a device operation a constant slot below the limit. A constant
  -- expression among the operands is not tested.
  pub verify_iff : (verify l ≡ []) ↔ IsAccepted l
  verify_iff = (IsAccepted_of_nil, nil_of_IsAccepted)
