-- ===== src/Base/Search.antt =====
-- Sets kept as lists, and what bounds a search over a finite universe.
use Prim.Native.Nat.{suc, ◌≤◌}
use mathlib.Core.Path.{◌≡◌, refl, ap, sym, ◌∙◌}
use mathlib.Core.Logic.{◌≢◌, ◌↔◌, ◌⊎◌, ⊎_elim}
use mathlib.Core.Bool.{Bool, true, false}
use mathlib.Core.List.{List, [], ◌∷◌, Memᴰ}
use mathlib.Core.List.Memᴰ
use native.Mathlib.Omega.{arith}
use llvm_metal.Base.Lists.{length}

module _ {ℓ} {A : Type ℓ} where
  -- `HashSet::contains`
  unfoldable pub contains : Discrete A → A → List A → Bool
  contains d a [] = false
  contains d a (x ∷ xs) = elim (d a x) [ yes _ ↦ true | no _ ↦ contains d a xs ]

  pub Memᴰ-cons : (a x : A) (xs : List A) → Memᴰ a (x ∷ xs) ↔ ((a ≡ x) ⊎ Memᴰ a xs)
  Memᴰ-cons a x xs = (Memᴰ.cases_cons, ⊎_elim Memᴰ.head Memᴰ.tail)

  contains-into : (d : Discrete A) (a : A) (xs : List A) → contains d a xs ≡ true → Memᴰ a xs
  unfolding contains
  contains-into d a [] h = cc
  contains-into d a (x ∷ xs) h = ground (arith, contains-into d a xs, Memᴰ-cons a x xs)

  contains-onto : (d : Discrete A) (a : A) (xs : List A) → Memᴰ a xs → contains d a xs ≡ true
  unfolding contains
  contains-onto d a [] m = absurd (Memᴰ.not-nil m)
  contains-onto d a (x ∷ xs) m = ground (arith, contains-onto d a xs, Memᴰ-cons a x xs)

  pub contains_iff : (d : Discrete A) (a : A) (xs : List A) → (contains d a xs ≡ true) ↔ Memᴰ a xs
  contains_iff d a xs = (contains-into d a xs, contains-onto d a xs)

  abbrev pub Distinct : List A → Type ℓ
  Distinct [] = Unit
  Distinct (x ∷ xs) = (¬ Memᴰ x xs) × Distinct xs

  remove : {a : A} {ys : List A} → Memᴰ a ys → List A
  remove (Memᴰ.head {xs = ys} e) = ys
  remove (Memᴰ.tail {x = y} m) = y ∷ remove m

  length-remove : {a : A} {ys : List A} (m : Memᴰ a ys) → length ys ≡ suc (length (remove m))
  unfolding remove
  length-remove (Memᴰ.head e) = refl
  length-remove (Memᴰ.tail m) = ap suc (length-remove m)

  mem-remove : {a b : A} {ys : List A} (m : Memᴰ a ys) → Memᴰ b ys → b ≢ a → Memᴰ b (remove m)
  unfolding remove
  mem-remove (Memᴰ.head e) n ne = ⊎_elim (λ p. absurd (ne (p ∙ sym e))) (λ k. k) (Memᴰ.cases_cons n)
  mem-remove (Memᴰ.tail m) n ne =
      ⊎_elim (λ p. Memᴰ.head p) (λ k. Memᴰ.tail (mem-remove m k ne)) (Memᴰ.cases_cons n)

  -- A list of distinct members of `ys` is no longer than `ys`.
  pub length-le_of_Distinct :
      (xs ys : List A) → Distinct xs → ((a : A) → Memᴰ a xs → Memᴰ a ys) → length xs ≤ length ys
  length-le_of_Distinct [] ys d s = omega arith
  length-le_of_Distinct (x ∷ xs) ys (fresh, d) s =
      let m = s x (Memᴰ.head refl) in
      let rest =
        length-le_of_Distinct xs (remove m) d
          (λ a n. mem-remove m (s a (Memᴰ.tail n)) (λ e. fresh (Memᴰ.cast (sym e) n))) in
      omega (arith, length-remove m)
