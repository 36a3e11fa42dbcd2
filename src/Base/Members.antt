-- ===== src/Base/Members.antt =====
-- Rust's iterator tests over lists, and membership as a type that can be matched.
use mathlib.Core.Path.{◌∙◌, ap}
use mathlib.Core.Path.{◌≡◌, refl}
use mathlib.Core.Logic.{◌↔◌, inl, inr, ⊎_elim}
use mathlib.Core.Bool.{Bool, true, false, ◌&&◌, ◌||◌}
use mathlib.Core.List.{List, [], ◌∷◌, ◌++◌, Memᴰ}
use mathlib.Core.List.Memᴰ
use native.Mathlib.Omega.{arith}
use native.Mathlib.Decide.{ℕ_discrete}
use Prim.Native.Nat.{ℕ, zero, suc, ◌+◌, ◌≤◌, ◌<◌}
use llvm_metal.Base.Lists.{length, range, range_from}
use llvm_metal.Base.Tests.{Bool-cases, if◌then◌else◌}

module _ {ℓ} {A : Type ℓ} where
  unfoldable pub any : (A → Bool) → List A → Bool
  any p [] = false
  any p (x ∷ xs) = p x || any p xs

  unfoldable pub all : (A → Bool) → List A → Bool
  all p [] = true
  all p (x ∷ xs) = p x && all p xs

  -- `filter` of an iterator, by a Boolean test
  unfoldable pub keep : (A → Bool) → List A → List A
  keep p [] = []
  keep p (x ∷ xs) = let rest = keep p xs in if p x then x ∷ rest else rest

  any-hit : (p : A → Bool) (xs : List A) (x : A) → Memᴰ x xs → p x ≡ true → any p xs ≡ true
  unfolding any
  any-hit p [] x m h = absurd (Memᴰ.not-nil m)
  any-hit p (y ∷ ys) x (Memᴰ.head e) h = rw (← e, h)
  any-hit p (y ∷ ys) x (Memᴰ.tail m) h = ground (arith, any-hit p ys x m h)

  any-find : (p : A → Bool) (xs : List A) → any p xs ≡ true → (x : A) × Memᴰ x xs × (p x ≡ true)
  unfolding any
  any-find p [] h = cc
  any-find p (y ∷ ys) h = elim (Bool-cases (p y)) [
    | inl e ↦ (y, Memᴰ.head refl, e)
    | inr e ↦ let (x, m, q) = any-find p ys (ground arith) in (x, Memᴰ.tail m, q)
  ]

  pub any_iff :
      (p : A → Bool) (xs : List A) → (any p xs ≡ true) ↔ ((x : A) × Memᴰ x xs × (p x ≡ true))
  any_iff p xs = (any-find p xs, λ (x, m, h). any-hit p xs x m h)

  all-each : (p : A → Bool) (xs : List A) → all p xs ≡ true → (x : A) → Memᴰ x xs → p x ≡ true
  unfolding all
  all-each p [] h x m = absurd (Memᴰ.not-nil m)
  all-each p (y ∷ ys) h x (Memᴰ.head e) = rw e (ground arith)
  all-each p (y ∷ ys) h x (Memᴰ.tail m) = all-each p ys (ground arith) x m

  all-every : (p : A → Bool) (xs : List A) → ((x : A) → Memᴰ x xs → p x ≡ true) → all p xs ≡ true
  unfolding all
  all-every p [] h = refl
  all-every p (y ∷ ys) h = rw (h y (Memᴰ.head refl)) (all-every p ys (λ x m. h x (Memᴰ.tail m)))

  pub all_iff :
      (p : A → Bool) (xs : List A) → (all p xs ≡ true) ↔ ((x : A) → Memᴰ x xs → p x ≡ true)
  all_iff p xs = (all-each p xs, all-every p xs)

  keep-into : (p : A → Bool) (xs : List A) (x : A) → Memᴰ x (keep p xs) → Memᴰ x xs × (p x ≡ true)
  unfolding keep
  keep-into p [] x m = absurd (Memᴰ.not-nil m)
  keep-into p (y ∷ ys) x m = elim (Bool-cases (p y)) [
    | inl e ↦
        ⊎_elim (λ q. (Memᴰ.head q, rw q e))
          (λ n. let (a, b) = keep-into p ys x n in (Memᴰ.tail a, b)) (Memᴰ.cases_cons (rw e at m))
    | inr e ↦ let (a, b) = keep-into p ys x (rw e at m) in (Memᴰ.tail a, b)
  ]

  keep-onto : (p : A → Bool) (xs : List A) (x : A) → Memᴰ x xs → p x ≡ true → Memᴰ x (keep p xs)
  unfolding keep
  keep-onto p [] x m h = absurd (Memᴰ.not-nil m)
  keep-onto p (y ∷ ys) x (Memᴰ.head q) h = let e : p y ≡ true = rw (← q) h in rw e (Memᴰ.head q)
  keep-onto p (y ∷ ys) x (Memᴰ.tail m) h = elim (Bool-cases (p y)) [
    | inl e ↦ rw e (Memᴰ.tail (keep-onto p ys x m h))
    | inr e ↦ rw e (keep-onto p ys x m h)
  ]

  pub keep_iff :
      (p : A → Bool) (xs : List A) (x : A) → Memᴰ x (keep p xs) ↔ (Memᴰ x xs × (p x ≡ true))
  keep_iff p xs x = (keep-into p xs x, λ (m, h). keep-onto p xs x m h)

-- `flat_map` of an iterator
unfoldable pub flat_map {ℓ κ} : {A : Type ℓ} {B : Type κ} → (A → List B) → List A → List B
flat_map f [] = []
flat_map f (x ∷ xs) = f x ++ flat_map f xs

flat_map-into {ℓ κ} :
    {A : Type ℓ} {B : Type κ} (f : A → List B) (xs : List A) (b : B)
    → Memᴰ b (flat_map f xs)
    → (x : A) × Memᴰ x xs × Memᴰ b (f x)
unfolding flat_map
flat_map-into f [] b m = absurd (Memᴰ.not-nil m)
flat_map-into f (x ∷ xs) b m =
    ⊎_elim (λ n. (x, Memᴰ.head refl, n))
      (λ n. let (y, p, q) = flat_map-into f xs b n in (y, Memᴰ.tail p, q))
      (Memᴰ.append_cases (f x) m)

flat_map-onto {ℓ κ} :
    {A : Type ℓ} {B : Type κ} (f : A → List B) (xs : List A) (b : B) (x : A)
    → Memᴰ x xs
    → Memᴰ b (f x)
    → Memᴰ b (flat_map f xs)
unfolding flat_map
flat_map-onto f [] b x m n = absurd (Memᴰ.not-nil m)
flat_map-onto f (y ∷ ys) b x (Memᴰ.head e) n = Memᴰ.append_left _ (rw e at n)
flat_map-onto f (y ∷ ys) b x (Memᴰ.tail m) n = Memᴰ.append_right _ (flat_map-onto f ys b x m n)

pub flat_map_iff {ℓ κ} :
    {A : Type ℓ} {B : Type κ} (f : A → List B) (xs : List A) (b : B)
    → Memᴰ b (flat_map f xs) ↔ ((x : A) × Memᴰ x xs × Memᴰ b (f x))
flat_map_iff f xs b = (flat_map-into f xs b, λ (x, m, n). flat_map-onto f xs b x m n)

range_from-into :
    (first count i : ℕ) → Memᴰ i (range_from first count) → (first ≤ i) × (i < first + count)
range_from-into first zero i m = absurd (Memᴰ.not-nil m)
range_from-into first (suc count) i (Memᴰ.head e) = omega arith
range_from-into first (suc count) i (Memᴰ.tail m) =
    omega (arith, range_from-into (suc first) count i m)

range_from-onto :
    (first count i : ℕ) → first ≤ i → i < first + count → Memᴰ i (range_from first count)
range_from-onto first zero i h k = absurd (omega arith)
range_from-onto first (suc count) i h k = elim (ℕ_discrete i first) [
  | yes e ↦ Memᴰ.head e
  | no ne ↦ Memᴰ.tail (range_from-onto (suc first) count i (omega arith) (omega arith))
]

length-range_from : (first count : ℕ) → length (range_from first count) ≡ count
length-range_from first zero = refl
length-range_from first (suc count) = ap suc (length-range_from (suc first) count)

pub length-range : (count : ℕ) → length (range count) ≡ count
length-range count = length-range_from 0 count

pub range_iff : (count i : ℕ) → Memᴰ i (range count) ↔ (i < count)
range_iff count i = (
  λ m. omega (arith, range_from-into 0 count i m),
  λ h. range_from-onto 0 count i (omega arith) (omega arith),
)

pub append-eq-nil {ℓ} : {A : Type ℓ} (xs ys : List A) → xs ++ ys ≡ [] → (xs ≡ []) × (ys ≡ [])
append-eq-nil [] ys h = (refl, h)
append-eq-nil (x ∷ xs) ys h = cc

pub flat_map-eq-nil {ℓ κ} :
    {A : Type ℓ} {B : Type κ} (f : A → List B) (xs : List A)
    → flat_map f xs ≡ []
    → (x : A) → Memᴰ x xs
    → f x ≡ []
unfolding flat_map
flat_map-eq-nil f [] h x m = absurd (Memᴰ.not-nil m)
flat_map-eq-nil f (y ∷ ys) h x (Memᴰ.head e) = ap f e ∙ (append-eq-nil (f y) (flat_map f ys) h).0
flat_map-eq-nil f (y ∷ ys) h x (Memᴰ.tail m) =
    flat_map-eq-nil f ys (append-eq-nil (f y) (flat_map f ys) h).1 x m

pub flat_map-nil {ℓ κ} :
    {A : Type ℓ} {B : Type κ} (f : A → List B) (xs : List A)
    → ((x : A) → Memᴰ x xs → f x ≡ [])
    → flat_map f xs ≡ []
unfolding flat_map
flat_map-nil f [] h = refl
flat_map-nil f (x ∷ xs) h = rw (h x (Memᴰ.head refl)) (flat_map-nil f xs (λ y m. h y (Memᴰ.tail m)))
