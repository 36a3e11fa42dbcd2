-- ===== src/Base/Bytes.antt =====
-- Little-endian bytes of machine integers (`to_le_bytes`), read back.
use Prim.Native.Nat.{ℕ, zero, suc, ◌+◌, ◌*◌, ◌/◌, ◌%◌, ◌^◌, ◌≤◌, ◌<◌}
use mathlib.Core.Path.{◌≡◌, refl, ap, sym, ◌∙◌}
use mathlib.Core.List.{List, [], ◌∷◌, ◌++◌}
use mathlib.Core.Option.{some}
use native.Mathlib.Omega.{arith}
use native.Mathlib.Nat.{pow-suc}
use llvm_metal.Base.Lists.{length, get_elem?, take, drop, take-append, drop-append}

-- The `count` low bytes of `n`, the lowest first.
unfoldable pub to_le_bytes : ℕ → ℕ → List ℕ
to_le_bytes zero n = []
to_le_bytes (suc count) n = n % 256 ∷ to_le_bytes count (n / 256)

unfoldable pub from_le_bytes : List ℕ → ℕ
from_le_bytes [] = 0
from_le_bytes (b ∷ bs) = b + 256 * from_le_bytes bs

pub length-to_le_bytes : (count n : ℕ) → length (to_le_bytes count n) ≡ count
unfolding to_le_bytes
length-to_le_bytes zero n = refl
length-to_le_bytes (suc count) n = ap suc (length-to_le_bytes count (n / 256))

pub from_le_bytes-to_le_bytes :
    (count n : ℕ) → n < 256 ^ count → from_le_bytes (to_le_bytes count n) ≡ n
unfolding from_le_bytes to_le_bytes
from_le_bytes-to_le_bytes zero n h = omega arith
from_le_bytes-to_le_bytes (suc count) n h =
    omega (arith, from_le_bytes-to_le_bytes count (n / 256) (omega (arith, pow-suc 256 count)))

-- The bytes of `bs` at `from .. from + count`.
abbrev pub slice {ℓ} : {A : Type ℓ} → ℕ → ℕ → List A → List A
slice from count bs = take count (drop from bs)

pub slice-append {ℓ} :
    {A : Type ℓ} (before part after : List A) (from count : ℕ)
    → length before ≡ from
    → length part ≡ count
    → slice from count (before ++ (part ++ after)) ≡ part
slice-append before part after from count e f =
    rw (← e, ← f, drop-append before (part ++ after)) (take-append part after)

pub length-slice {ℓ} :
    {A : Type ℓ} (bs : List A) (from count : ℕ)
    → from + count ≤ length bs
    → length (slice from count bs) ≡ count
length-slice bs from zero h = refl
length-slice [] zero (suc count) h = absurd (omega arith)
length-slice [] (suc from) (suc count) h = absurd (omega arith)
length-slice (b ∷ bs) zero (suc count) h = ap suc (length-slice bs zero count (omega arith))
length-slice (b ∷ bs) (suc from) (suc count) h = length-slice bs from (suc count) (omega arith)

slice-zero {ℓ} : {A : Type ℓ} (bs : List A) (count : ℕ) → take count bs ≡ take count (drop zero bs)
slice-zero bs count = refl

-- A slice that is not empty is its first element and a shorter slice.
pub slice-suc {ℓ} :
    {A : Type ℓ} (bs : List A) (from count : ℕ) (a : A)
    → get_elem? bs from ≡ some a
    → slice from (suc count) bs ≡ a ∷ slice (suc from) count bs
slice-suc [] from count a e = cc
slice-suc (b ∷ bs) zero count a e =
    let same : b ≡ a = cc in rw same (ap (λ (r : List _). a ∷ r) (slice-zero bs count))
slice-suc (b ∷ bs) (suc from) count a e = slice-suc bs from count a e

get_elem?-lt {ℓ} :
    {A : Type ℓ} (xs : List A) (i : ℕ) → i < length xs → (a : A) × (get_elem? xs i ≡ some a)
get_elem?-lt [] i h = absurd (omega arith)
get_elem?-lt (x ∷ xs) zero h = (x, refl)
get_elem?-lt (x ∷ xs) (suc i) h = get_elem?-lt xs i (omega arith)

-- Equal elements make equal slices.
pub slice-ext {ℓ} :
    {A : Type ℓ} (xs ys : List A) (from count : ℕ)
    → from + count ≤ length xs
    → ((i : ℕ) → from ≤ i → i < from + count → get_elem? ys i ≡ get_elem? xs i)
    → slice from count ys ≡ slice from count xs
slice-ext xs ys from zero h e = refl
slice-ext xs ys from (suc count) h e =
    let (a, p) = get_elem?-lt xs from (omega arith) in
    slice-suc ys from count a (e from (omega arith) (omega arith) ∙ p)
    ∙ (ap (λ (r : List _). a ∷ r)
          (slice-ext xs ys (suc from) count (omega arith)
            (λ i k m. e i (omega arith) (omega arith)))
        ∙ sym (slice-suc xs from count a p))
