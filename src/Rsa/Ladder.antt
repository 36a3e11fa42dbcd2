-- ===== src/Rsa/Ladder.antt =====
-- The ladder of examples/rsa/kernel/src/lib.rs raises to the power that its digits spell.
use llvm_metal.Base.{
  ℕ, zero, suc, ◌+◌, ◌-◌, ◌*◌, ◌^◌, ◌<◌, ◌≡◌, refl, sym, ◌∙◌, ap, List, [], ◌∷◌, ◌++◌, arith,
  get_or, flat_map,
}
use mathlib.Core.List.{reverse, reverse-cons, append_assoc, append-nil}
use native.Mathlib.Nat.{pow-zero, pow-suc}
use llvm_metal.Base.{pow-add, pow_one}
use llvm_metal.Modular.{montmul}
use llvm_metal.Modular.Value.{word, value, IsLimbs}
use llvm_metal.Modular.Residue.{IsModulus, IsForm, montmul-IsForm}
use llvm_metal.Rsa.{window, tbl, windows, powers, squarings, ladder, digits_of}

-- A number with the base-16 digits appended to it, the highest first.
abbrev pub number_from : ℕ → List ℕ → ℕ
number_from e [] = e
number_from e (d ∷ ds) = number_from (16 * e + d) ds

abbrev pub IsDigits : List ℕ → Type 0
IsDigits [] = Unit
IsDigits (d ∷ ds) = (d < 16) × IsDigits ds

number_from-append :
    (e : ℕ) (ds es : List ℕ) → number_from e (ds ++ es) ≡ number_from (number_from e ds) es
number_from-append e [] es = refl
number_from-append e (d ∷ ds) es = number_from-append (16 * e + d) ds es

IsDigits-append : (ds es : List ℕ) → IsDigits ds → IsDigits es → IsDigits (ds ++ es)
IsDigits-append [] es h k = k
IsDigits-append (d ∷ ds) es (h, hs) k = (h, IsDigits-append ds es hs k)

-- The eight windows of a limb spell it.
windows_lem : (e limb : ℕ) → limb < word → number_from e (windows limb) ≡ word * e + limb
unfolding windows
windows_lem e limb h = omega arith

windows-IsDigits : (limb : ℕ) → IsDigits (windows limb)
unfolding windows
windows-IsDigits limb = (
  omega arith,
  (
    omega arith,
    (omega arith, (omega arith, (omega arith, (omega arith, (omega arith, (omega arith, tt)))))),
  ),
)

-- The digits of an exponent are digits, and spell it.
pub digits_of-IsDigits : (exponent : List ℕ) → IsDigits (digits_of exponent)
unfolding digits_of flat_map
digits_of-IsDigits exponent = every-IsDigits (reverse exponent)
  where
    every-IsDigits : (limbs : List ℕ) → IsDigits (flat_map windows limbs)
    every-IsDigits [] = tt
    every-IsDigits (x ∷ xs) =
        IsDigits-append (windows x) (flat_map windows xs) (windows-IsDigits x) (every-IsDigits xs)

flat_map-append :
    (f : ℕ → List ℕ) (xs : List ℕ) (y : ℕ) → flat_map f (xs ++ y ∷ []) ≡ flat_map f xs ++ f y
unfolding flat_map
flat_map-append f [] y = append-nil (f y)
flat_map-append f (x ∷ xs) y =
    ap (λ (r : List ℕ). f x ++ r) (flat_map-append f xs y)
    ∙ sym (append_assoc (f x) (flat_map f xs) (f y))

pub digits_of-value :
    (exponent : List ℕ) → IsLimbs exponent → number_from 0 (digits_of exponent) ≡ value exponent
unfolding digits_of flat_map
digits_of-value [] h = refl
digits_of-value (x ∷ xs) (h, hs) =
    rw
      (
        reverse-cons x xs,
        flat_map-append windows (reverse xs) x,
        number_from-append 0 (flat_map windows (reverse xs)) (windows x),
      )
      (windows_lem (number_from 0 (flat_map windows (reverse xs))) x h
        ∙ rw (digits_of-value xs hs) (omega arith))

-- Doubled so many times.
abbrev pub doubled : ℕ → ℕ → ℕ
doubled zero e = e
doubled (suc count) e = doubled count (e + e)

module _ (n : List ℕ) (n0inv inverse : ℕ) (good : IsModulus n n0inv inverse) where
  IsForm-cast : {x y : ℕ} {r : List ℕ} → x ≡ y → IsForm n x r → IsForm n y r
  IsForm-cast {r} e f = rw e at f

  pub squarings-IsForm :
      (count : ℕ) (acc : List ℕ) (x e : ℕ)
      → IsForm n (x ^ e) acc
      → IsForm n (x ^ doubled count e) (squarings n n0inv count acc)
  unfolding squarings
  squarings-IsForm zero acc x e f = f
  squarings-IsForm (suc count) acc x e f =
      squarings-IsForm count (montmul acc acc n n0inv) x (e + e) (
        IsForm-cast (sym (pow-add x e e))
          (montmul-IsForm n n0inv inverse good acc acc (x ^ e) (x ^ e) f f))

  -- The table holds the powers of x.
  powers-IsForm :
      (a : List ℕ) (x count : ℕ) (last : List ℕ) (e d : ℕ)
      → IsForm n x a
      → IsForm n (x ^ e) last
      → d < count
      → IsForm n (x ^ (e + d)) (get_or (powers n n0inv a count last) d [])
  unfolding powers
  powers-IsForm a x zero last e d fa f h = absurd (omega arith)
  powers-IsForm a x (suc count) last e zero fa f h =
      let p : e ≡ e + 0 = omega arith in IsForm-cast (ap (λ (k : ℕ). x ^ k) p) f
  powers-IsForm a x (suc count) last e (suc d) fa f h =
      let p : suc e + d ≡ e + suc d = omega arith in
      IsForm-cast (ap (λ (k : ℕ). x ^ k) p) (
        powers-IsForm a x count (montmul last a n n0inv) (suc e) d fa
          (IsForm-cast (sym (pow-suc x e))
            (montmul-IsForm n n0inv inverse good last a (x ^ e) x f fa))
          (omega arith))

  table-IsForm :
      (one a : List ℕ) (x d : ℕ)
      → IsForm n 1 one
      → IsForm n x a
      → d < 16
      → IsForm n (x ^ d) (get_or (one ∷ powers n n0inv a (tbl - 1) a) d [])
  table-IsForm one a x zero f1 fa h = IsForm-cast (sym (pow-zero x)) f1
  table-IsForm one a x (suc d) f1 fa h =
      let p : 1 + d ≡ suc d = omega arith in
      let first : x ≡ x ^ 1 = sym (pow_one x) in
      IsForm-cast (ap (λ (k : ℕ). x ^ k) p)
        (powers-IsForm a x (tbl - 1) a 1 d fa (IsForm-cast first fa) (omega arith))

  -- From the power e on, the ladder appends the digits to the exponent.
  pub ladder-IsForm :
      (one a : List ℕ) (x : ℕ) (ds : List ℕ) (acc : List ℕ) (e : ℕ)
      → IsForm n 1 one
      → IsForm n x a
      → IsDigits ds
      → IsForm n (x ^ e) acc
      → IsForm n (x ^ number_from e ds) (ladder n n0inv (one ∷ powers n n0inv a (tbl - 1) a) ds acc)
  unfolding ladder
  ladder-IsForm one a x [] acc e f1 fa h f = f
  ladder-IsForm one a x (d ∷ ds) acc e f1 fa (h, hs) f =
      let sixteen : doubled window e + d ≡ 16 * e + d = omega arith in
      ladder-IsForm one a x ds _ (16 * e + d) f1 fa hs (
        IsForm-cast (sym (pow-add x (doubled window e) d) ∙ ap (λ (k : ℕ). x ^ k) sixteen) (
          montmul-IsForm n n0inv inverse good (squarings n n0inv window acc) _
            (x ^ doubled window e) (x ^ d) (squarings-IsForm window acc x e f)
            (table-IsForm one a x d f1 fa h)))
