-- ===== src/Compiler/Select/Deleted.antt =====
-- What `keep_reachable` of compiler/src/select.rs deletes.
use llvm_metal.Base.{
  suc, ◌≡◌, refl, sym, ◌∙◌, ap, ◌↔◌, inl, inr, not, some, List, [], ◌∷◌, ◌++◌, map, flat_map,
  keep_iff, flat_map_iff, contains, contains_iff, Bool-cases, Memᴰ, arith,
}
use mathlib.Core.List.{reverse, append_assoc}
use mathlib.Core.List.Memᴰ
use llvm_metal.Compiler.Llvm.{Llvm}
use llvm_metal.Compiler.Ir.{functions, globals, blocks, instructions}
use llvm_metal.Compiler.Select.{
  dead, Edit, erase, delete_block, clear_initializer, delete_function, delete_global, emptied,
  edits, keep_reachable,
}
use llvm_metal.Compiler.Select.Refers.{Refers}
use llvm_metal.Compiler.Select.Reached.{reverse-Memᴰ, IsReferred, cost, walk_lem}

module _ (l : Llvm) where
  open l use {Value, Block}

  pub deleted_functions : List (Edit l) → List Value
  deleted_functions [] = []
  deleted_functions (delete_function f ∷ es) = f ∷ deleted_functions es
  deleted_functions (delete_global g ∷ es) = deleted_functions es
  deleted_functions (clear_initializer g ∷ es) = deleted_functions es
  deleted_functions (erase v ∷ es) = deleted_functions es
  deleted_functions (delete_block b ∷ es) = deleted_functions es

  pub deleted_globals : List (Edit l) → List Value
  deleted_globals [] = []
  deleted_globals (delete_function f ∷ es) = deleted_globals es
  deleted_globals (delete_global g ∷ es) = g ∷ deleted_globals es
  deleted_globals (clear_initializer g ∷ es) = deleted_globals es
  deleted_globals (erase v ∷ es) = deleted_globals es
  deleted_globals (delete_block b ∷ es) = deleted_globals es

  -- Edits that delete no function and no global.
  abbrev pub IsEmptying : List (Edit l) → Type 0
  IsEmptying [] = Unit
  IsEmptying (delete_function f ∷ es) = ⊥
  IsEmptying (delete_global g ∷ es) = ⊥
  IsEmptying (clear_initializer g ∷ es) = IsEmptying es
  IsEmptying (erase v ∷ es) = IsEmptying es
  IsEmptying (delete_block b ∷ es) = IsEmptying es

  IsEmptying-append :
      (xs ys : List (Edit l)) → IsEmptying xs → IsEmptying ys → IsEmptying (xs ++ ys)
  IsEmptying-append [] ys h k = k
  IsEmptying-append (delete_function f ∷ xs) ys h k = elim h [ ]
  IsEmptying-append (delete_global g ∷ xs) ys h k = elim h [ ]
  IsEmptying-append (clear_initializer g ∷ xs) ys h k = IsEmptying-append xs ys h k
  IsEmptying-append (erase v ∷ xs) ys h k = IsEmptying-append xs ys h k
  IsEmptying-append (delete_block b ∷ xs) ys h k = IsEmptying-append xs ys h k

  erase-IsEmptying : (vs : List Value) → IsEmptying (map erase vs)
  erase-IsEmptying [] = tt
  erase-IsEmptying (v ∷ vs) = erase-IsEmptying vs

  -- In front of edits that delete nothing, the deletions are those of the rest.
  after_emptying :
      (xs ys : List (Edit l))
      → IsEmptying xs
      → (deleted_functions (xs ++ ys) ≡ deleted_functions ys)
        × (deleted_globals (xs ++ ys) ≡ deleted_globals ys)
  unfolding deleted_functions deleted_globals
  after_emptying [] ys h = (refl, refl)
  after_emptying (delete_function f ∷ xs) ys h = elim h [ ]
  after_emptying (delete_global g ∷ xs) ys h = elim h [ ]
  after_emptying (clear_initializer g ∷ xs) ys h = after_emptying xs ys h
  after_emptying (erase v ∷ xs) ys h = after_emptying xs ys h
  after_emptying (delete_block b ∷ xs) ys h = after_emptying xs ys h

  delete_block-IsEmptying : (bs : List Block) → IsEmptying (map delete_block bs)
  delete_block-IsEmptying [] = tt
  delete_block-IsEmptying (b ∷ bs) = delete_block-IsEmptying bs

  clear-IsEmptying : (gs : List Value) → IsEmptying (map clear_initializer gs)
  clear-IsEmptying [] = tt
  clear-IsEmptying (g ∷ gs) = clear-IsEmptying gs

  emptied-IsEmptying : (fs : List Value) → IsEmptying (flat_map (emptied l) fs)
  unfolding flat_map emptied
  emptied-IsEmptying [] = tt
  emptied-IsEmptying (f ∷ fs) =
      IsEmptying-append (emptied l f) (flat_map (emptied l) fs)
        (IsEmptying-append (map erase (reverse (instructions l f))) (map delete_block (blocks l f))
          (erase-IsEmptying (reverse (instructions l f))) (delete_block-IsEmptying (blocks l f)))
        (emptied-IsEmptying fs)

  deletions :
      (fs gs : List Value)
      → (deleted_functions (map delete_function fs ++ map delete_global gs) ≡ fs)
        × (deleted_globals (map delete_function fs ++ map delete_global gs) ≡ gs)
  unfolding deleted_functions deleted_globals
  deletions [] [] = (refl, refl)
  deletions [] (g ∷ gs) = let (a, b) = deletions [] gs in (a, ap (λ (r : List Value). g ∷ r) b)
  deletions (f ∷ fs) gs = let (a, b) = deletions fs gs in (ap (λ (r : List Value). f ∷ r) a, b)

  -- Edits that erase all instructions of a function, and delete all of its blocks.
  abbrev pub IsEmptied : List (Edit l) → Value → Type 0
  IsEmptied es f =
      ((i : Value) → Memᴰ i (instructions l f) → Memᴰ (erase i) es)
      × ((b : Block) → Memᴰ b (blocks l f) → Memᴰ (delete_block b) es)

  each-IsEmptied :
      (fs : List Value) (more : List (Edit l)) (f : Value)
      → Memᴰ f fs
      → IsEmptied (flat_map (emptied l) fs ++ more) f
  unfolding emptied
  each-IsEmptied fs more f m = (
    λ i mi. Memᴰ.append_left more (
        (flat_map_iff (emptied l) fs (erase i)).1
          (f, m, Memᴰ.append_left _ (Memᴰ.map erase ((reverse-Memᴰ _ i).1 mi)))),
    λ b mb. Memᴰ.append_left more (
        (flat_map_iff (emptied l) fs (delete_block b)).1 (
          f,
          m,
          Memᴰ.append_right (map erase (reverse (instructions l f))) (Memᴰ.map delete_block mb),
        )),
  )

  -- The edits empty first, and then delete what is dead.
  pub edits_lem :
      (found : List Value)
      → (first rest : List (Edit l)) × (edits l found ≡ first ++ rest)
        × IsEmptying first
        × ((f : Value) → Memᴰ f (dead l found (functions l)) → IsEmptied first f)
        × ((g : Value) → Memᴰ g (dead l found (globals l)) → Memᴰ (clear_initializer g) first)
        × (deleted_functions (edits l found) ≡ dead l found (functions l))
        × (deleted_globals (edits l found) ≡ dead l found (globals l))
  unfolding edits
  edits_lem found =
      let fs = dead l found (functions l) in
      let gs = dead l found (globals l) in
      let one : List (Edit l) = flat_map (emptied l) fs in
      let two : List (Edit l) = map clear_initializer gs in
      let rest : List (Edit l) = map delete_function fs ++ map delete_global gs in
      let (a, b) = after_emptying one (two ++ rest) (emptied-IsEmptying fs) in
      let (c, d) = after_emptying two rest (clear-IsEmptying gs) in
      let (e, f) = deletions fs gs in
      (
        one ++ two,
        rest,
        sym (append_assoc one two rest),
        IsEmptying-append one two (emptied-IsEmptying fs) (clear-IsEmptying gs),
        λ f m. each-IsEmptied fs two f m,
        λ g m. Memᴰ.append_right one (Memᴰ.map clear_initializer m),
        a ∙ c ∙ e,
        b ∙ d ∙ f,
      )

  -- The members of a list that are not reached.
  dead_iff :
      (entry : Value) (found values : List Value)
      → ((v : Value) → Memᴰ v found ↔ IsReferred l entry v)
      → (v : Value) → Memᴰ v (dead l found values) ↔ (Memᴰ v values × (¬ IsReferred l entry v))
  unfolding dead
  dead_iff entry found values same v =
      let member = contains_iff l.value_eq v found in
      let kept = keep_iff (λ w. not (contains l.value_eq w found)) values v in
      (
        λ m.
            let (listed, fresh) = kept.0 m in
            (listed, λ r. let hit = member.1 ((same v).1 r) in absurd (ground arith)),
        λ (listed, other). kept.1 (
          listed,
          elim (Bool-cases (contains l.value_eq v found)) [
            | inl hit ↦ absurd (other ((same v).0 (member.0 hit)))
            | inr fresh ↦ rw fresh refl
          ],
        ),
      )

  -- Where finitely many values hold the entry and all that they refer to, `keep_reachable` ends; it deletes
  -- exactly the functions and the globals of the module that the entry does not refer to, through any number of
  -- values. Its edits are two parts: the first deletes no function and no global, erases all instructions and
  -- deletes all blocks of every function that is deleted, and clears the initializer of every global that is; the
  -- deletions are all in the second.
  pub keep_reachable_lem :
      (entry : Value) (universe : List Value)
      → ((u w : Value) → Memᴰ u universe → Refers l u w → Memᴰ w universe)
      → Memᴰ entry universe
      → (es : List (Edit l)) × (keep_reachable l (suc (cost l [] universe)) entry ≡ some es)
        × ((f : Value)
            → Memᴰ f (deleted_functions es) ↔ (Memᴰ f (functions l) × (¬ IsReferred l entry f)))
        × ((g : Value)
            → Memᴰ g (deleted_globals es) ↔ (Memᴰ g (globals l) × (¬ IsReferred l entry g)))
        × ((first rest : List (Edit l)) × (es ≡ first ++ rest)
            × IsEmptying first
            × ((f : Value) → Memᴰ f (deleted_functions es) → IsEmptied first f)
            × ((g : Value) → Memᴰ g (deleted_globals es) → Memᴰ (clear_initializer g) first)
            × (deleted_functions rest ≡ deleted_functions es)
            × (deleted_globals rest ≡ deleted_globals es))
  unfolding keep_reachable
  keep_reachable_lem entry universe whole m =
      let (found, ends, same) = walk_lem l entry universe whole m in
      let (first, rest, split, empties, each, clears, fs, gs) = edits_lem found in
      let (a, b) = after_emptying first rest empties in
      (
        edits l found,
        rw ends refl,
        λ f. rw fs (dead_iff entry found (functions l) same f),
        λ g. rw gs (dead_iff entry found (globals l) same g),
        (
          first,
          rest,
          split,
          empties,
          λ f m. each f (rw fs at m),
          λ g m. clears g (rw gs at m),
          sym a ∙ ap deleted_functions (sym split),
          sym b ∙ ap deleted_globals (sym split),
        ),
      )
