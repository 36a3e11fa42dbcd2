-- ===== src/Compiler/Panics/Calls.antt =====
-- Which calls `rewrite_panics` of compiler/src/select.rs replaces, and what it erases, where no replacement meets
-- what another has erased: the calls of the module as it was, each with its own edits.
use llvm_metal.Base.{
  List, Option, [], ◌∷◌, ◌≡◌, ◌≤◌, length, refl, ap, ◌∙◌, ◌↔◌, inl, inr, true, false, Bool, some,
  Memᴰ, ◌∷◌, flat_map, keep, if◌then◌else◌, keep_iff, flat_map_iff, Bool-cases, Option-cases, arith,
}
use llvm_metal.Compiler.Llvm.{Llvm}
use llvm_metal.Compiler.Ir.Walks.{IsChain, chain_lem}
use llvm_metal.Compiler.Ir.{functions, users, callee}
use llvm_metal.Compiler.Panics.{
  PanicEdit, is_same, build_panic, build_return_void, build_return_null, erase_instruction, is_void,
  erase, tail_of, calls_it, panics,
}

module _ (l : Llvm) where
  open l use {Value, Ty}

  -- The calls of functions that never return, as the module has them.
  unfoldable pub all_calls : List Value → List Value
  all_calls fs = flat_map (λ function. keep (calls_it l function) (users l function)) fs

  -- The edits for a call whose tail is whole.
  unfoldable pub whole_edits : Value → List (PanicEdit Value Ty)
  whole_edits call =
      let returned = l.return_type (l.block_parent (l.instruction_parent call)) in
      build_panic call
      ∷ (if is_void l returned then build_return_void call else build_return_null call returned)
      ∷ flat_map (erase l) (tail_of l call)

  erase-erases : (i j : Value) → Memᴰ (erase_instruction i) (erase l j) ↔ (i ≡ j)
  unfolding erase
  erase-erases i j = elim (Bool-cases (is_void l (l.type_of j))) [
    | inl v ↦ rw v (
      (λ m. elim m [ Memᴰ.head e ↦ cc | Memᴰ.tail n ↦ elim n [ ] ]),
      (λ e. Memᴰ.head (ap erase_instruction e)),
    )
    | inr v ↦ rw v (
      (λ m. elim m [
        | Memᴰ.head e ↦ cc
        | Memᴰ.tail n ↦ elim n [ Memᴰ.head e ↦ cc | Memᴰ.tail n' ↦ elim n' [ ] ]
      ]),
      (λ e. Memᴰ.tail (Memᴰ.head (ap erase_instruction e))),
    )
  ]

  erase-builds : (i j : Value) → Memᴰ (build_panic i) (erase l j) → ⊥
  unfolding erase
  erase-builds i j = elim (Bool-cases (is_void l (l.type_of j))) [
    | inl v ↦ rw v (λ m. elim m [ Memᴰ.head e ↦ cc | Memᴰ.tail n ↦ elim n [ ] ])
    | inr v ↦ rw v (λ m. elim m [
      | Memᴰ.head e ↦ cc
      | Memᴰ.tail n ↦ elim n [ Memᴰ.head e ↦ cc | Memᴰ.tail n' ↦ elim n' [ ] ]
    ])
  ]

  pub is_same_iff : (a b : Value) → (is_same l a b ≡ true) ↔ (a ≡ b)
  unfolding is_same
  is_same_iff a b =
      elim (l.value_eq a b)
        as (λ d. ((elim d as (λ _. Bool) [ yes _ ↦ true | no _ ↦ false ]) ≡ true) ↔ (a ≡ b)) [
          | yes p ↦ ((λ h. p), (λ h. refl))
          | no n ↦ ((λ h. absurd (cc)), (λ h. absurd (n h)))
        ]

  pub calls_it_iff :
      (f user : Value)
      → (calls_it l f user ≡ true) ↔ ((l.is_a_call_inst user ≡ true) × (callee l user ≡ some f))
  unfolding calls_it
  calls_it_iff f user = elim (Bool-cases (l.is_a_call_inst user)) [
    | inr c ↦ ((λ h. absurd (ground (arith, c, h))), (λ (h, _). absurd (cc)))
    | inl c ↦ elim (Option-cases (callee l user)) [
      | inl e ↦ ((λ h. absurd (ground (arith, c, e, h))), (λ (_, h). absurd (cc)))
      | inr (t, e) ↦ (
        (λ h. let same = (is_same_iff t f).0 (ground (arith, c, e, h)) in (c, e ∙ ap some same)),
        (λ (_, h).
            let same : t ≡ f = cc in
            let test = (is_same_iff t f).1 same in ground (arith, c, e, test)),
      )
    ]
  ]

  -- Every call of a function that is named is a use of it.
  abbrev pub IsUsed : Type 0
  IsUsed =
      (call f : Value)
      → l.is_a_call_inst call ≡ true
      → callee l call ≡ some f
      → Memᴰ call (users l f)

  -- A call of an undefined function that never returns.
  abbrev pub IsPanicCall : Value → Type 0
  IsPanicCall call =
      (f : Value) × (l.is_a_call_inst call ≡ true)
      × (callee l call ≡ some f)
      × Memᴰ f (functions l)
      × (panics l f ≡ true)

  -- An instruction from one on, in its block.
  pub data From (first : Value) : Value → Type 0 where
    itself : {i : Value} → first ≡ i → From first i
    after : {i j : Value} → From first i → l.next_instruction i ≡ some j → From first j

  -- A block is a list within the bound.
  abbrev pub IsListed : Type 0
  IsListed =
      (first : Value)
      → (xs : List Value) × IsChain l.next_instruction (some first) xs × (length xs ≤ l.list_bound)

  chain-closed :
      (first : Option Value) (xs : List Value) (i j : Value)
      → IsChain l.next_instruction first xs
      → Memᴰ i xs
      → l.next_instruction i ≡ some j
      → Memᴰ j xs
  chain-closed first (x ∷ []) i j (_, rest) (Memᴰ.head p) e =
      absurd (let e' : l.next_instruction x ≡ some j = rw p at e in cc)
  chain-closed first (x ∷ (y ∷ ys)) i j (_, rest) (Memᴰ.head p) e =
      let next = rest.0 in
      let e' : l.next_instruction x ≡ some j = rw p at e in
      let same : j ≡ y = cc in Memᴰ.tail (Memᴰ.head same)
  chain-closed first (x ∷ xs) i j (_, rest) (Memᴰ.tail m) e =
      Memᴰ.tail (chain-closed (l.next_instruction x) xs i j rest m e)
  chain-closed first [] i j h m e = elim m [ ]

  chain-From :
      (first from : Value) (xs : List Value) (i : Value)
      → IsChain l.next_instruction (some from) xs
      → From first from
      → Memᴰ i xs
      → From first i
  chain-From first from [] i c f m = elim m [ ]
  chain-From first from (x ∷ xs) i (e, rest) f (Memᴰ.head p) =
      let same : from ≡ i = cc in rw (← same) f
  chain-From first from (x ∷ []) i (e, rest) f (Memᴰ.tail m) = elim m [ ]
  chain-From first from (x ∷ (y ∷ ys)) i (e, more) f (Memᴰ.tail m) =
      let next = more.0 in
      let rest = more.1 in
      let same : from ≡ x = cc in
      chain-From first y (y ∷ ys) i (refl, rest) (after (rw (← same) f) next) m

  pub tail_of_iff : IsListed → (call i : Value) → Memᴰ i (tail_of l call) ↔ From call i
  unfolding tail_of
  tail_of_iff listed call i =
      let (xs, c, small) = listed call in
      rw (chain_lem l.next_instruction (some call) xs l.list_bound c small)
        (chain-From call call xs i c (itself refl), holds xs c)
    where
      holds :
          (xs : List Value)
          → IsChain l.next_instruction (some call) xs
          → {j : Value} → From call j
          → Memᴰ j xs
      holds [] c f = absurd (cc)
      holds (x ∷ xs) (e, rest) (itself p) = Memᴰ.head (cc)
      holds (x ∷ xs) c (after f next) =
          chain-closed (some call) (x ∷ xs) _ _ c (holds (x ∷ xs) c f) next

  pub all_calls_iff :
      IsUsed
      → (call : Value) → Memᴰ call (all_calls (keep (panics l) (functions l))) ↔ IsPanicCall call
  unfolding all_calls
  all_calls_iff used call = (
    λ m.
        let (f, mf, k) = (flat_map_iff _ _ call).0 m in
        let (listed, p) = (keep_iff (panics l) (functions l) f).0 mf in
        let (_, it) = (keep_iff (calls_it l f) (users l f) call).0 k in
        let (c, e) = (calls_it_iff f call).0 it in (f, c, e, listed, p),
    λ (f, c, e, listed, p). (flat_map_iff _ _ call).1 (
      f,
      (keep_iff (panics l) (functions l) f).1 (listed, p),
      (keep_iff (calls_it l f) (users l f) call).1
          (used call f c e, (calls_it_iff f call).1 (c, e)),
    ),
  )

  pub whole_edits-builds : (i call : Value) → Memᴰ (build_panic i) (whole_edits call) ↔ (i ≡ call)
  unfolding whole_edits
  whole_edits-builds i call = (
    λ m. elim m [
      | Memᴰ.head e ↦ cc
      | Memᴰ.tail n ↦ elim n [
        | Memᴰ.head e ↦ absurd (ground (arith, e))
        | Memᴰ.tail k ↦
            let (j, _, b) = (flat_map_iff (erase l) (tail_of l call) _).0 k in
            absurd (erase-builds i j b)
      ]
    ],
    λ e. Memᴰ.head (ap build_panic e),
  )

  pub whole_edits-erases :
      (i call : Value) → Memᴰ (erase_instruction i) (whole_edits call) ↔ Memᴰ i (tail_of l call)
  unfolding whole_edits
  whole_edits-erases i call = (
    λ m. elim m [
      | Memᴰ.head e ↦ absurd (ground (arith, e))
      | Memᴰ.tail n ↦ elim n [
        | Memᴰ.head e ↦ absurd (ground (arith, e))
        | Memᴰ.tail k ↦
            let (j, mj, b) = (flat_map_iff (erase l) (tail_of l call) _).0 k in
            let same = (erase-erases i j).0 b in rw same mj
      ]
    ],
    λ m. Memᴰ.tail (
        Memᴰ.tail
          ((flat_map_iff (erase l) (tail_of l call) _).1 (i, m, (erase-erases i i).1 refl))),
  )

  -- The edits of all calls build a panic before each, and erase each with what follows it.
  pub all_edits_iff :
      IsUsed
      → IsListed
      → ((call : Value)
          → Memᴰ
              (build_panic call)
              (flat_map whole_edits (all_calls (keep (panics l) (functions l))))
            ↔ IsPanicCall call)
        × ((i : Value)
            → Memᴰ
                (erase_instruction i)
                (flat_map whole_edits (all_calls (keep (panics l) (functions l))))
              ↔ ((call : Value) × IsPanicCall call × From call i))
  all_edits_iff used listed = (
    λ call. (
      λ m.
          let (c, mc, b) = (flat_map_iff whole_edits _ _).0 m in
          let same = (whole_edits-builds call c).0 b in (all_calls_iff used call).0 (rw same mc),
      λ p.
          (flat_map_iff whole_edits _ _).1
            (call, (all_calls_iff used call).1 p, (whole_edits-builds call call).1 refl),
    ),
    λ i. (
      λ m.
          let (c, mc, b) = (flat_map_iff whole_edits _ _).0 m in
          (
            c,
            (all_calls_iff used c).0 mc,
            (tail_of_iff listed c i).0 ((whole_edits-erases i c).0 b),
          ),
      λ (c, p, n). (flat_map_iff whole_edits _ _).1 (
        c,
        (all_calls_iff used c).1 p,
        (whole_edits-erases i c).1 ((tail_of_iff listed c i).1 n),
      ),
    ),
  )
