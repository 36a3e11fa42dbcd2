-- ===== src/Compiler/Materialize/Built.antt =====
-- `materialize` of compiler/src/lower/constants.rs: the instructions compute the constant.
use llvm_metal.Base.{
  ℕ, zero, suc, ◌+◌, ◌<◌, ◌≡◌, refl, sym, ap, ap₂, Memᴰ, ◌∙◌, ◌⊎◌, inl, inr, true, Option, false,
  some, List, [], ◌∷◌, ◌++◌, map, flat_map, arith, range_from, drop,
}
use llvm_metal.Compiler.Llvm.{Llvm, Opcode}
use llvm_metal.Compiler.Ir.{operands, is_pointer}
use llvm_metal.Compiler.Constants.{addresses}
use llvm_metal.Compiler.Materialize.{
  Made, given, word, build_gep, build_ptr_to_int, nil, cons, givens, refers, insert_all, expression,
  materialize,
}
use llvm_metal.Compiler.Materialize.Meaning.{Meaning, eval, eval_parts, IsAcyclic, IsMeaning}
use llvm_metal.Compiler.Materialize.Patched.{patch, patch-cases, eval-insert}
use llvm_metal.Compiler.Materialize.Stable.{
  refers-not-function, refers-constant, addresses-plain, addresses-pointer, addresses-aggregate,
}
use llvm_metal.Compiler.Materialize.Restored.{
  Sound, plain, global, from_base, aggregate, Inside, without, address, parts, inside_lem,
}
use llvm_metal.Compiler.Materialize.Rebuilt.{valued, indexed, entries}

module _ (l : Llvm) (acyclic : IsAcyclic l) (x : Meaning l) (offsets : List (l.Value × ℕ))
    (copy : l.Value) (means : IsMeaning l x offsets copy) where
  open l use {Value, Ty}
  open x use {Datum, denote, in_copy}

  -- The addresses of an aggregate: each is below a part, is one that `materialize` takes, and nests less.
  abbrev Entries : ℕ → List (List ℕ × Value) → Type 0
  Entries n [] = Unit
  Entries n ((path, target) ∷ es) =
      ((i : ℕ) × (rest : List ℕ) × (path ≡ i ∷ rest))
      × Sound l offsets target
      × (l.nesting target < n)
      × Entries n es

  -- The same of addresses whose paths may be empty.
  abbrev Targets : ℕ → List (List ℕ × Value) → Type 0
  Targets n [] = Unit
  Targets n ((path, target) ∷ es) = Sound l offsets target × (l.nesting target < n) × Targets n es

  Entries-append :
      (n : ℕ) (es fs : List (List ℕ × Value)) → Entries n es → Entries n fs → Entries n (es ++ fs)
  Entries-append n [] fs h k = k
  Entries-append n ((path, target) ∷ es) fs (i, s, less, h) k =
      (i, s, less, Entries-append n es fs h k)

  Entries-indexed :
      (n i : ℕ) (es : List (List ℕ × Value)) → Targets n es → Entries n (map (indexed i) es)
  Entries-indexed n i [] h = tt
  Entries-indexed n i ((path, target) ∷ es) (s, less, h) =
      ((i, path, refl), s, less, Entries-indexed n i es h)

  Targets-Entries : (n : ℕ) (es : List (List ℕ × Value)) → Entries n es → Targets n es
  Targets-Entries n [] h = tt
  Targets-Entries n ((path, target) ∷ es) (_, s, less, h) = (s, less, Targets-Entries n es h)

  all_parts :
      (n first count : ℕ) (c : Value)
      → ((i : ℕ) → i < first + count → Targets n (addresses l (l.get_operand c i)))
      → Entries n (
          flat_map
            (λ i. map (indexed i) (addresses l (l.get_operand c i)))
            (range_from first count))
  unfolding flat_map
  all_parts n first zero c h = tt
  all_parts n first (suc count) c h =
      Entries-append n _ _ (Entries-indexed n first _ (h first (omega arith)))
        (all_parts n (suc first) count c (λ i b. h i (omega arith)))

  parts-Targets :
      (n : ℕ) (c : Value) → Inside l offsets c → l.nesting c < n → Targets n (addresses l c)
  parts-Targets n c (without e) b = rw (addresses-plain l acyclic c e) tt
  parts-Targets n c (address e p s) b = rw (addresses-pointer l acyclic c e p) (s, b, tt)
  parts-Targets n c (parts e p q within) b =
      let const = refers-constant l acyclic c e in
      let f = refers-not-function l acyclic c e in
      rw (addresses-aggregate l acyclic c e p) (
        Targets-Entries n _ (
          all_parts n 0 (l.num_operands c) c (λ i k.
            let within_count : i < l.num_operands c = omega arith in
            let (_, less) = acyclic.operand_nested c i const f within_count in
            parts-Targets n (l.get_operand c i) (within i within_count) (omega arith))))

  aggregate-Entries :
      (c : Value)
      → refers l c ≡ true
      → is_pointer l (l.type_of c) ≡ false
      → Inside l offsets c
      → Entries (l.nesting c) (addresses l c)
  aggregate-Entries c h r (without e) = absurd (cc)
  aggregate-Entries c h r (address e p s) = absurd (cc)
  aggregate-Entries c h r (parts e p q within) =
      let const = refers-constant l acyclic c e in
      let f = refers-not-function l acyclic c e in
      rw (addresses-aggregate l acyclic c e p) (
        all_parts (l.nesting c) 0 (l.num_operands c) c (λ i k.
          let within_count : i < l.num_operands c = omega arith in
          let (_, less) = acyclic.operand_nested c i const f within_count in
          parts-Targets (l.nesting c) (l.get_operand c i) (within i within_count) less))

  -- The loop writes all addresses.
  insert_all_lem :
      (n : ℕ) (made : Value → Option (Made Value Ty))
      → ((t : Value)
          → Sound l offsets t
          → l.nesting t < n
          → (a : Made Value Ty) × (made t ≡ some a) × (eval l x a ≡ some (in_copy t)))
      → (es : List (List ℕ × Value)) (m : Made Value Ty) (d r : Datum) → Entries n es
      → eval l x m ≡ some d
      → patch l x (map (valued in_copy) es) d ≡ some r
      → (k : Made Value Ty) × (insert_all l made m es ≡ some k) × (eval l x k ≡ some r)
  unfolding insert_all patch
  insert_all_lem n made h [] m d r entry v p = (m, refl, v ∙ p)
  insert_all_lem n made h ((path, target) ∷ es) m d r ((i, rest, at), s, less, later) v p =
      let (a, e, w) = h target s less in
      let (new, u, more) = patch-cases l x path (in_copy target) _ d r p in
      let (next, ins, value) = eval-insert l x m a i rest d (in_copy target) new v w (rw at at u) in
      let (k, end, final) = insert_all_lem n made h es next new r later value more in
      (k, rw (insert_all, e, at, ins) end, final)

  eval-givens : (vs : List Value) → eval_parts l x (givens vs) ≡ some (map denote vs)
  unfolding eval givens
  eval-givens [] = refl
  eval-givens (v ∷ vs) = rw (eval-givens vs) refl

  in_copy-plain :
      (vs : List Value)
      → ((o : Value) → Memᴰ o vs → refers l o ≡ false)
      → map denote vs ≡ map in_copy vs
  in_copy-plain [] h = refl
  in_copy-plain (v ∷ vs) h =
      ap₂ (λ (d : Datum) (ds : List Datum). d ∷ ds) (sym (means.of_plain v (h v (Memᴰ.head refl))))
        (in_copy-plain vs (λ o m. h o (Memᴰ.tail m)))

  expression_lem :
      (c : Value) (base : Made Value Ty)
      → l.is_a_constant_expr c ≡ true
      → (l.const_opcode c ≡ Opcode.get_element_ptr) ⊎ (l.const_opcode c ≡ Opcode.ptr_to_int)
      → eval l x base ≡ some (in_copy (l.get_operand c 0))
      → ((o : Value) → Memᴰ o (drop 1 (operands l c)) → refers l o ≡ false)
      → (m : Made Value Ty) × (expression l c base ≡ some m) × (eval l x m ≡ some (in_copy c))
  unfolding expression eval
  expression_lem c base k (inl o) v ps = (
    build_gep (l.gep_source_element_type c) base (givens (drop 1 (operands l c))),
    rw (expression, o) refl,
    rw (v, eval, eval-givens, in_copy-plain _ ps) (ap some (sym (means.of_gep c k o))),
  )
  expression_lem c base k (inr o) v ps = (
    build_ptr_to_int base (l.type_of c),
    rw (expression, o) refl,
    rw (v, eval) (ap some (sym (means.of_ptr_to_int c k o))),
  )

  -- With fuel above the nesting `materialize` of a constant that it takes ends, and what it builds computes,
  -- from what its operands are to LLVM, what the constant is where the globals are in the copy.
  pub materialize_lem :
      (fuel : ℕ) (c : Value)
      → Sound l offsets c
      → l.nesting c < fuel
      → (m : Made Value Ty) × (materialize l fuel offsets copy c ≡ some m)
        × (eval l x m ≡ some (in_copy c))
  unfolding materialize eval entries
  materialize_lem zero c s n = absurd (omega arith)
  materialize_lem (suc fuel) c (plain e) n =
      (given c, rw (materialize, e) refl, ap some (sym (means.of_plain c e)))
  materialize_lem (suc fuel) c (global offset e g at) n = (
    build_gep l.int8_type (given copy) (cons (word offset) nil),
    rw (materialize, e, g, at) refl,
    ap some (sym (means.of_global c offset g at)),
  )
  materialize_lem (suc fuel) c (from_base e g k o some_operand s ps) n =
      let const = refers-constant l acyclic c e in
      let f = refers-not-function l acyclic c e in
      let (_, less) = acyclic.operand_nested c 0 const f some_operand in
      let (base, built, value) = materialize_lem fuel (l.get_operand c 0) s (omega arith) in
      let (m, made, final) = expression_lem c base k o value ps in
      (m, rw (materialize, e, g, k, built) made, final)
  materialize_lem (suc fuel) c (aggregate e g k p within cleared) n =
      let (value, w, d, v, patched) =
        inside_lem l acyclic x offsets copy means (suc fuel) c within cleared n in
      let entry = aggregate-Entries c e p within in
      let (m, made, final) =
        insert_all_lem (l.nesting c) (materialize l fuel offsets copy)
          (λ t sound less. materialize_lem fuel t sound (omega arith)) (addresses l c) value d
          (in_copy c) entry v patched in
      (m, rw (materialize, e, g, k, w) made, final)
