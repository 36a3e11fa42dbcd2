-- ===== src/Compiler/Select/Reached.antt =====
-- The loop of `keep_reachable` in compiler/src/select.rs ends, with exactly what the entry refers to.
use llvm_metal.Base.{
  ℕ, zero, suc, ◌+◌, ◌≤◌, ◌≡◌, refl, ◌↔◌, ◌⊎◌, inl, inr, ⊎_elim, false, Option, some, List, [], ◌∷◌,
  ◌++◌, Memᴰ, length, length-append, arith, contains, contains_iff, Bool-cases, if◌then◌else◌,
}
use mathlib.Core.List.{reverse, reverse-cons}
use mathlib.Core.List.Memᴰ
use llvm_metal.Compiler.Llvm.{Llvm}
use llvm_metal.Compiler.Select.{references, walk}
use llvm_metal.Compiler.Select.Refers.{Refers, references-into, references-onto}

length-reverse {ℓ} : {A : Type ℓ} (xs : List A) → length (reverse xs) ≡ length xs
length-reverse [] = refl
length-reverse (x ∷ xs) =
    rw (reverse-cons x xs) (omega (arith, length-append (reverse xs) (x ∷ []), length-reverse xs))

pub reverse-Memᴰ {ℓ} : {A : Type ℓ} (xs : List A) (a : A) → Memᴰ a (reverse xs) ↔ Memᴰ a xs
reverse-Memᴰ [] a = (λ m. m, λ m. m)
reverse-Memᴰ (x ∷ xs) a =
    let rest = reverse-Memᴰ xs a in
    rw (reverse-cons x xs) (
      λ m.
          ⊎_elim (λ n. Memᴰ.tail (rest.0 n)) (λ n. Memᴰ.head (Memᴰ.eq_of_singleton n))
            (Memᴰ.append_cases (reverse xs) m),
      λ m.
          ⊎_elim (λ e. Memᴰ.append_right (reverse xs) (Memᴰ.head e))
            (λ n. Memᴰ.append_left _ (rest.1 n)) (Memᴰ.cases_cons m),
    )

module _ (l : Llvm) where
  open l use {Value}

  -- The entry, and what is referred to from there, through any number of values.
  pub data IsReferred (entry : Value) : Value → Type 0 where
    itself : IsReferred entry entry
    through : {v w : Value} → IsReferred entry v → Refers l v w → IsReferred entry w

  -- What the values that are not reached still add to `pending`.
  pub cost : List Value → List Value → ℕ
  cost reached [] = 0
  cost reached (v ∷ vs) =
      (if contains l.value_eq v reached then 0 else length (references l v)) + cost reached vs

  cost-cons : (v : Value) (reached vs : List Value) → cost (v ∷ reached) vs ≤ cost reached vs
  unfolding cost contains
  cost-cons v reached [] = omega arith
  cost-cons v reached (w ∷ ws) = ground (arith, cost-cons v reached ws)

  -- Reaching a value pays for what it adds.
  cost-reach :
      (v : Value) (reached vs : List Value)
      → Memᴰ v vs
      → contains l.value_eq v reached ≡ false
      → cost (v ∷ reached) vs + length (references l v) ≤ cost reached vs
  unfolding cost contains
  cost-reach v reached [] m fresh = absurd (Memᴰ.not-nil m)
  cost-reach v reached (w ∷ ws) (Memᴰ.head e) fresh =
      ground (arith, cost-cons v reached ws, rw e at fresh, e)
  cost-reach v reached (w ∷ ws) (Memᴰ.tail m) fresh =
      ground (arith, cost-reach v reached ws m fresh)

  -- The invariant of the loop.
  record Inv (entry : Value) (universe reached pending : List Value) : Type 0 where
    inside : (v : Value) → Memᴰ v pending → Memᴰ v universe
    referred : (v : Value) → Memᴰ v reached ⊎ Memᴰ v pending → IsReferred entry v
    entered : Memᴰ entry reached ⊎ Memᴰ entry pending
    closed :
        (v w : Value) → Memᴰ v reached → Memᴰ w (references l v) → Memᴰ w reached ⊎ Memᴰ w pending

  Inv-skip :
      (entry : Value) (universe reached pending : List Value) (v : Value)
      → Memᴰ v reached
      → Inv entry universe reached (v ∷ pending)
      → Inv entry universe reached pending
  Inv-skip entry universe reached pending v old h =
      let move = λ (w : Value) (m : Memᴰ w (v ∷ pending)).
        let r : Memᴰ w reached ⊎ Memᴰ w pending =
          ⊎_elim (λ e. inl (Memᴰ.cast e old)) inr (Memᴰ.cases_cons m) in
        r in
      record {
        inside = λ w m. h.inside w (Memᴰ.tail m);
        referred = λ w. ⊎_elim (λ m. h.referred w (inl m)) (λ m. h.referred w (inr (Memᴰ.tail m)));
        entered = ⊎_elim inl (move entry) h.entered;
        closed = λ u w m r. ⊎_elim inl (move w) (h.closed u w m r);
      }

  Inv-reach :
      (entry : Value) (universe reached pending : List Value) (v : Value)
      → ((u w : Value) → Memᴰ u universe → Memᴰ w (references l u) → Memᴰ w universe)
      → Inv entry universe reached (v ∷ pending)
      → Inv entry universe (v ∷ reached) (reverse (references l v) ++ pending)
  Inv-reach entry universe reached pending v whole h =
      let added = reverse (references l v) in
      let here = h.referred v (inr (Memᴰ.head refl)) in
      let from_added = λ (w : Value) (m : Memᴰ w added). (reverse-Memᴰ (references l v) w).0 m in
      let move = λ (w : Value) (m : Memᴰ w (v ∷ pending)).
        let r : Memᴰ w (v ∷ reached) ⊎ Memᴰ w (added ++ pending) =
          ⊎_elim (λ e. inl (Memᴰ.head e)) (λ n. inr (Memᴰ.append_right added n))
            (Memᴰ.cases_cons m) in
        r in
      record {
        inside = λ w m.
            ⊎_elim (λ n. whole v w (h.inside v (Memᴰ.head refl)) (from_added w n))
              (λ n. h.inside w (Memᴰ.tail n)) (Memᴰ.append_cases added m);
        referred = λ w.
            ⊎_elim (λ m. ⊎_elim (λ e. rw e here) (λ n. h.referred w (inl n)) (Memᴰ.cases_cons m))
              (λ m.
                ⊎_elim (λ n. through here (references-into l v w (from_added w n)))
                  (λ n. h.referred w (inr (Memᴰ.tail n))) (Memᴰ.append_cases added m));
        entered = ⊎_elim (λ m. inl (Memᴰ.tail m)) (move entry) h.entered;
        closed = λ u w m r.
            ⊎_elim
              (λ e.
                inr (Memᴰ.append_left pending ((reverse-Memᴰ (references l v) w).1 (rw e at r))))
              (λ n. ⊎_elim (λ k. inl (Memᴰ.tail k)) (move w) (h.closed u w n r))
              (Memᴰ.cases_cons m);
      }

  -- With nothing pending, all that is referred to is reached.
  all_reached :
      (entry : Value) (universe reached : List Value)
      → Inv entry universe reached []
      → {v : Value} → IsReferred entry v
      → Memᴰ v reached
  all_reached entry universe reached h itself =
      ⊎_elim (λ m. m) (λ m. absurd (Memᴰ.not-nil m)) h.entered
  all_reached entry universe reached h (through {v} {w} r m) =
      ⊎_elim (λ n. n) (λ n. absurd (Memᴰ.not-nil n))
        (h.closed v w (all_reached entry universe reached h r) (references-onto l v w m))

  abbrev pub Finds : Value → Option (List Value) → Type 0
  Finds entry r =
      (found : List Value) × (r ≡ some found) × ((v : Value) → Memᴰ v found ↔ IsReferred entry v)

  -- From any moment of the loop: a round for each value pending, and for each that is still to be pending.
  walk-Finds :
      (entry : Value) (universe : List Value)
      → ((u w : Value) → Memᴰ u universe → Memᴰ w (references l u) → Memᴰ w universe)
      → (rounds : ℕ) (reached pending : List Value) → Inv entry universe reached pending
      → length pending + cost reached universe ≤ rounds
      → Finds entry (walk l rounds reached pending)
  unfolding walk
  walk-Finds entry universe whole rounds reached [] h n =
      let done : walk l rounds reached [] ≡ some reached = ground arith in
      (reached, done, λ v. (λ m. h.referred v (inl m), λ r. all_reached entry universe reached h r))
  walk-Finds entry universe whole zero reached (v ∷ pending) h n = absurd (omega arith)
  walk-Finds entry universe whole (suc rounds) reached (v ∷ pending) h n =
      elim (Bool-cases (contains l.value_eq v reached)) [
        | inl old ↦
            rw (old, walk)
              (walk-Finds entry universe whole rounds reached pending
                (Inv-skip entry universe reached pending v
                  ((contains_iff l.value_eq v reached).0 old) h)
                (omega arith))
        | inr new ↦
            let paid = cost-reach v reached universe (h.inside v (Memᴰ.head refl)) new in
            let size = length-reverse (references l v) in
            let total = length-append (reverse (references l v)) pending in
            rw (new, walk)
              (walk-Finds entry universe whole rounds (v ∷ reached)
                (reverse (references l v) ++ pending)
                (Inv-reach entry universe reached pending v whole h)
                (omega (arith, paid, size, total)))
      ]

  -- Where finitely many values hold the entry and all that they refer to, the loop ends: a round for the entry
  -- and one for each reference of those values are enough, and it reaches exactly what the entry refers to.
  pub walk_lem :
      (entry : Value) (universe : List Value)
      → ((u w : Value) → Memᴰ u universe → Refers l u w → Memᴰ w universe)
      → Memᴰ entry universe
      → Finds entry (walk l (suc (cost [] universe)) [] (entry ∷ []))
  walk_lem entry universe closed m =
      let whole = λ (u w : Value) (n : Memᴰ u universe) (r : Memᴰ w (references l u)).
        closed u w n (references-into l u w r) in
      let first : Inv entry universe [] (entry ∷ []) = record {
        inside = λ v n. rw (Memᴰ.eq_of_singleton n) m;
        referred =
            λ v. ⊎_elim (λ n. absurd (Memᴰ.not-nil n)) (λ n. rw (Memᴰ.eq_of_singleton n) itself);
        entered = inr (Memᴰ.head refl);
        closed = λ u w n r. absurd (Memᴰ.not-nil n);
      } in
      walk-Finds entry universe whole (suc (cost [] universe)) [] (entry ∷ []) first (omega arith)
