-- ===== src/Compiler/Materialize/Patched.antt =====
-- Writing into nested aggregates, as `insert` of compiler/src/lower/constants.rs builds it: on the values that
-- the instructions stand for.
use mathlib.Core.Option
use llvm_metal.Base.{
  ℕ, suc, ◌≡◌, refl, sym, ap, ◌∙◌, Option, none, some, List, [], ◌∷◌, ◌++◌, map, set, get_elem?,
  get_elem?-set_self, set-set, set-same, lt-length_of_get_elem?, arith, length, range_from,
  flat_map, length-append, Option-cases, inl, inr,
}
use mathlib.Core.List.{append_assoc}
use llvm_metal.Compiler.Llvm.{Llvm}
use llvm_metal.Compiler.Materialize.{Made, build_extract, build_insert, insert}
use llvm_metal.Compiler.Materialize.Meaning.{Meaning, inserted, eval}

module _ (l : Llvm) (x : Meaning l) where
  open x use {Datum}

  -- A value in place of the part at the end of a path.
  unfoldable pub update : Datum → List ℕ → Datum → Option Datum
  update d [] v = some v
  update d (i ∷ rest) v = elim (get_elem? (x.parts d) i) [
    | none ↦ none
    | some inner ↦ Option.map (λ new. x.aggregate (set (x.parts d) i new)) (update inner rest v)
  ]

  unfoldable pub patch : List (List ℕ × Datum) → Datum → Option Datum
  patch [] d = some d
  patch ((path, v) ∷ rest) d = elim (update d path v) [ none ↦ none | some e ↦ patch rest e ]

  update-cases :
      (d : Datum) (i : ℕ) (rest : List ℕ) (v r : Datum)
      → update d (i ∷ rest) v ≡ some r
      → (inner : Datum) × (get_elem? (x.parts d) i ≡ some inner)
        × (new : Datum) × (update inner rest v ≡ some new)
        × (x.aggregate (set (x.parts d) i new) ≡ r)
  unfolding update
  update-cases d i rest v r h = elim (Option-cases (get_elem? (x.parts d) i)) [
    | inl e ↦ absurd (ground (arith, e, h))
    | inr (inner, e) ↦ elim (Option-cases (update inner rest v)) [
      | inl u ↦ absurd (ground (arith, e, u, h))
      | inr (new, u) ↦ (inner, e, new, u, ground (arith, e, u, h))
    ]
  ]

  pub patch-cases :
      (path : List ℕ) (v : Datum) (es : List (List ℕ × Datum)) (d e : Datum)
      → patch ((path, v) ∷ es) d ≡ some e
      → (new : Datum) × (update d path v ≡ some new) × (patch es new ≡ some e)
  unfolding patch
  patch-cases path v es d e h = elim (Option-cases (update d path v)) [
    | inl u ↦ absurd (ground (arith, u, h))
    | inr (new, u) ↦ (new, u, rw (u, patch) at h)
  ]

  -- The instructions of `insert` compute the update.
  pub eval-insert :
      (m v : Made l.Value l.Ty) (i : ℕ) (rest : List ℕ) (d w r : Datum)
      → eval l x m ≡ some d
      → eval l x v ≡ some w
      → update d (i ∷ rest) w ≡ some r
      → (n : Made l.Value l.Ty) × (insert m (i ∷ rest) v ≡ some n) × (eval l x n ≡ some r)
  unfolding update insert eval inserted
  eval-insert m v i [] d w r p q h = (build_insert m v i, refl, ground arith)
  eval-insert m v i (j ∷ rest) d w r p q h =
      let (inner, e, new, u, whole) = update-cases d i (j ∷ rest) w r h in
      let (n, made, value) =
        eval-insert (build_extract m i) v j rest inner w new (rw (p, eval) e) q u in
      (build_insert m n i, rw (made, insert) refl, rw (p, value, eval, e) (ap some whole))

  pub patch-append :
      (es fs : List (List ℕ × Datum)) (d e : Datum)
      → patch es d ≡ some e
      → patch (es ++ fs) d ≡ patch fs e
  unfolding patch
  patch-append [] fs d e h = let p : d ≡ e = cc in rw p refl
  patch-append ((path, v) ∷ es) fs d e h =
      let (new, u, rest) = patch-cases path v es d e h in
      rw (u, patch) (patch-append es fs new e rest)

  -- The index of a part in front of each path.
  abbrev pub below : ℕ → List (List ℕ × Datum) → List (List ℕ × Datum)
  below i = map (λ (path, v). (i ∷ path, v))

  patch-below :
      (i : ℕ) (es : List (List ℕ × Datum)) (ds : List Datum) (d r : Datum)
      → get_elem? ds i ≡ some d
      → patch es d ≡ some r
      → patch (below i es) (x.aggregate ds) ≡ some (x.aggregate (set ds i r))
  unfolding patch update
  patch-below i [] ds d r g h =
      let p : d ≡ r = cc in
      ap (λ (s : List Datum). some (x.aggregate s)) (sym (set-same ds i r (rw (← p) g)))
  patch-below i ((path, v) ∷ es) ds d r g h =
      let (new, u, rest) = patch-cases path v es d r h in
      let known : get_elem? (set ds i new) i ≡ some new =
        get_elem?-set_self ds i new (lt-length_of_get_elem? ds i d g) in
      rw (patch, update, x.parts-aggregate ds, g, u, update, x.parts-aggregate ds)
        (patch-below i es (set ds i new) new r known rest
          ∙ ap (λ (s : List Datum). some (x.aggregate s)) (set-set ds i new r))

  -- Each part, from an index on, is patched to what the second list holds.
  abbrev pub Each : (ℕ → List (List ℕ × Datum)) → ℕ → List Datum → List Datum → Type 0
  Each es first [] [] = Unit
  Each es first [] (r ∷ rs) = ⊥
  Each es first (d ∷ ds) [] = ⊥
  Each es first (d ∷ ds) (r ∷ rs) = (patch (es first) d ≡ some r) × Each es (suc first) ds rs

  get_elem?-middle :
      (before rest : List Datum) (d : Datum)
      → get_elem? (before ++ (d ∷ rest)) (length before) ≡ some d
  get_elem?-middle [] rest d = refl
  get_elem?-middle (b ∷ before) rest d = get_elem?-middle before rest d

  set-middle :
      (before rest : List Datum) (d r : Datum)
      → set (before ++ (d ∷ rest)) (length before) r ≡ (before ++ (r ∷ [])) ++ rest
  set-middle [] rest d r = refl
  set-middle (b ∷ before) rest d r = ap (λ (s : List Datum). b ∷ s) (set-middle before rest d r)

  -- The parts of an aggregate are patched one after the other.
  pub patch-parts :
      (es : ℕ → List (List ℕ × Datum)) (before ds rs : List Datum)
      → Each es (length before) ds rs
      → patch
          (flat_map (λ i. below i (es i)) (range_from (length before) (length ds)))
          (x.aggregate (before ++ ds))
        ≡ some (x.aggregate (before ++ rs))
  unfolding flat_map patch
  patch-parts es before [] [] h = refl
  patch-parts es before [] (r ∷ rs) h = elim h [ ]
  patch-parts es before (d ∷ ds) [] h = elim h [ ]
  patch-parts es before (d ∷ ds) (r ∷ rs) (now, later) =
      let here =
        patch-below (length before) (es (length before)) (before ++ (d ∷ ds)) d r
          (get_elem?-middle before ds d) now in
      let next : suc (length before) ≡ length (before ++ (r ∷ [])) =
        omega (arith, length-append before (r ∷ [])) in
      let rest = patch-parts es (before ++ (r ∷ [])) ds rs (rw next at later) in
      patch-append _ _ _ _
        (here ∙ ap (λ (s : List Datum). some (x.aggregate s)) (set-middle before ds d r))
      ∙ rw next
          (rest ∙ ap (λ (s : List Datum). some (x.aggregate s)) (append_assoc before (r ∷ []) rs))
