-- ===== src/Shallenge/Sha/Schedule.antt =====
-- The rolling schedule of examples/shallenge/kernel/src/compress.rs against that of 64 words in
-- examples/shallenge/src/sha256.rs.
use llvm_metal.Base.{
  ℕ, zero, suc, ◌+◌, ◌-◌, ◌/◌, ◌%◌, ◌^◌, ◌<◌, ◌≤◌, ◌≡◌, ◌≢◌, refl, sym, ◌∙◌, ap, List, [], ◌∷◌,
  ◌++◌, length, length-set, length-append, get_or, set, replicate, lt→ltb, le→ltb, arith,
}
use native.Mathlib.Decide.{dec_lt, ℕ_discrete}
use llvm_metal.Shallenge.Compress.{Working, wrapping_add, rotate_right, xor3, scheduled, mix, mixed}
use llvm_metal.Shallenge.Sha.{next_word, extended, schedule, words_of, sha_mix, sha_mixed}

get_or-set_self : (xs : List ℕ) (i v : ℕ) → i < length xs → get_or (set xs i v) i 0 ≡ v
get_or-set_self [] i v h = absurd (omega arith)
get_or-set_self (x ∷ xs) zero v h = refl
get_or-set_self (x ∷ xs) (suc i) v h = get_or-set_self xs i v (omega arith)

get_or-set_ne : (xs : List ℕ) (i j v : ℕ) → i ≢ j → get_or (set xs i v) j 0 ≡ get_or xs j 0
get_or-set_ne [] i j v ne = refl
get_or-set_ne (x ∷ xs) zero zero v ne = absurd (ne refl)
get_or-set_ne (x ∷ xs) zero (suc j) v ne = refl
get_or-set_ne (x ∷ xs) (suc i) zero v ne = refl
get_or-set_ne (x ∷ xs) (suc i) (suc j) v ne = get_or-set_ne xs i j v (λ e. ne (ap suc e))

-- The word of the recurrence, of the four words that it reads.
abbrev pub combined : ℕ → ℕ → ℕ → ℕ → ℕ
combined p a q b =
    wrapping_add
      (wrapping_add (wrapping_add p (xor3 (rotate_right a 7) (rotate_right a 18) (a / 2 ^ 3))) q)
      (xor3 (rotate_right b 17) (rotate_right b 19) (b / 2 ^ 10))

combined-eq :
    {p a q b p' a' q' b' : ℕ}
    → p ≡ p'
    → a ≡ a'
    → q ≡ q'
    → b ≡ b'
    → combined p a q b ≡ combined p' a' q' b'
combined-eq e f g h = λ i. combined (e i) (f i) (g i) (h i)

-- The words from 16 to below `count` keep the recurrence.
abbrev pub IsExtended : ℕ → List ℕ → Type 0
IsExtended count s =
    (k : ℕ)
    → 16 ≤ k
    → k < count
    → get_or s k 0
      ≡ combined (get_or s (k - 16) 0) (get_or s (k - 15) 0) (get_or s (k - 7) 0)
          (get_or s (k - 2) 0)

IsExtended-set :
    (i v : ℕ) (s : List ℕ)
    → 16 ≤ i
    → i < length s
    → v
      ≡ combined
          (get_or s (i - 16) 0)
          (get_or s (i - 15) 0)
          (get_or s (i - 7) 0)
          (get_or s (i - 2) 0)
    → IsExtended i s
    → IsExtended (suc i) (set s i v)
IsExtended-set i v s low inside e h k lo hi =
    let same = λ (j : ℕ) (lt : j < i). sym (get_or-set_ne s i j v (λ q. omega (arith, q, lt))) in
    elim (ℕ_discrete k i) [
      | yes p ↦ rw p (
          get_or-set_self s i v inside
          ∙ e
          ∙ combined-eq (same (i - 16) (omega arith)) (same (i - 15) (omega arith))
              (same (i - 7) (omega arith)) (same (i - 2) (omega arith)))
      | no ne ↦
          sym (same k (omega arith))
          ∙ h k lo (omega arith)
          ∙ combined-eq (same (k - 16) (omega arith)) (same (k - 15) (omega arith))
              (same (k - 7) (omega arith)) (same (k - 2) (omega arith))
    ]

extended-IsExtended :
    (i left : ℕ) (s : List ℕ)
    → 16 ≤ i
    → i + left ≡ length s
    → IsExtended i s
    → IsExtended (i + left) (extended i left s)
      × ((k : ℕ) → k < i → get_or (extended i left s) k 0 ≡ get_or s k 0)
unfolding extended
extended-IsExtended i zero s low e h = let p : i + 0 ≡ i = omega arith in (rw p h, λ k lt. refl)
extended-IsExtended i (suc left) s low e h =
    let v = next_word i s in
    let p : i + suc left ≡ suc i + left = omega arith in
    let (all, kept) =
      extended-IsExtended (suc i) left (set s i v) (omega arith)
        (omega (arith, length-set s i v, e)) (IsExtended-set i v s low (omega (arith, e)) refl h) in
    (rw p all, λ k lt. kept k (omega arith) ∙ get_or-set_ne s i k v (λ q. omega (arith, q, lt)))

-- The rolling window holds the sixteen words of the schedule below `top`.
pub record IsWindow (top : ℕ) (w s : List ℕ) : Type 0 where
  pub size : length w ≡ 16
  pub holds : (k : ℕ) → k < top → top ≤ k + 16 → get_or w (k % 16) 0 ≡ get_or s k 0

scheduled-low : (i : ℕ) (w : List ℕ) → i < 16 → scheduled i w ≡ w
unfolding scheduled
scheduled-low i w h = rw (lt→ltb i 16 h) refl

scheduled-high :
    (i : ℕ) (w : List ℕ)
    → 16 ≤ i
    → scheduled i w
      ≡ set w (i % 16) (
          combined
            (get_or w (i % 16) 0)
            (get_or w ((i + 1) % 16) 0)
            (get_or w ((i + 9) % 16) 0)
            (get_or w ((i + 14) % 16) 0))
unfolding scheduled
scheduled-high i w h = rw (le→ltb i 16 h) refl

-- Word i goes over word i - 16, and is the schedule's.
scheduled-IsWindow :
    (i count : ℕ) (w s : List ℕ)
    → 16 ≤ i
    → i < count
    → IsExtended count s
    → IsWindow i w s
    → IsWindow (suc i) (scheduled i w) s
scheduled-IsWindow i count w s low inside ext h =
    let at = λ (j r : ℕ) (below : j < i) (near : i ≤ j + 16) (place : r % 16 ≡ j % 16).
      ap (λ (k : ℕ). get_or w k 0) place ∙ h.holds j below near in
    let v =
      combined (get_or w (i % 16) 0) (get_or w ((i + 1) % 16) 0) (get_or w ((i + 9) % 16) 0)
        (get_or w ((i + 14) % 16) 0) in
    let word : v ≡ get_or s i 0 =
      combined-eq (at (i - 16) i (omega arith) (omega arith) (omega arith))
        (at (i - 15) (i + 1) (omega arith) (omega arith) (omega arith))
        (at (i - 7) (i + 9) (omega arith) (omega arith) (omega arith))
        (at (i - 2) (i + 14) (omega arith) (omega arith) (omega arith))
      ∙ sym (ext i low inside) in
    rw (scheduled-high i w low) (record {
      size = length-set w (i % 16) v ∙ h.size;
      holds = λ k below near. elim (ℕ_discrete k i) [
        | yes e ↦ rw e (get_or-set_self w (i % 16) v (omega (arith, h.size)) ∙ word)
        | no ne ↦
            get_or-set_ne w (i % 16) (k % 16) v (λ q. ne (omega (arith, q, below, near)))
            ∙ h.holds k (omega arith) (omega arith)
      ];
    })

mix-eq : (k w : ℕ) (st : Working) → mix k w st ≡ sha_mix k w st
unfolding mix sha_mix
mix-eq k w st = refl

mixed-high :
    (ks : List ℕ) (i count : ℕ) (w s : List ℕ) (st : Working)
    → 16 ≤ i
    → i + length ks ≤ count
    → IsExtended count s
    → IsWindow i w s
    → mixed ks i w st ≡ sha_mixed ks i s st
unfolding mixed sha_mixed
mixed-high [] i count w s st low inside ext h = refl
mixed-high (k ∷ ks) i count w s st low inside ext h =
    let next = scheduled-IsWindow i count w s low (omega (arith, inside)) ext h in
    let word = next.holds i (omega arith) (omega arith) in
    mixed-high ks (suc i) count (scheduled i w) s (mix k (get_or (scheduled i w) (i % 16) 0) st)
      (omega arith) (omega (arith, inside)) ext next
    ∙ ap (λ (x : ℕ). sha_mixed ks (suc i) s (mix k x st)) word
    ∙ ap (λ (x : Working). sha_mixed ks (suc i) s x) (mix-eq k (get_or s i 0) st)

-- The rounds with the rolling window are those with the whole schedule.
pub mixed_lem :
    (ks : List ℕ) (i count : ℕ) (w s : List ℕ) (st : Working)
    → i ≤ 16
    → i + length ks ≤ count
    → IsExtended count s
    → IsWindow 16 w s
    → mixed ks i w st ≡ sha_mixed ks i s st
unfolding mixed sha_mixed
mixed_lem [] i count w s st low inside ext h = refl
mixed_lem (k ∷ ks) i count w s st low inside ext h = elim (dec_lt i 16) [
  | yes p ↦
      let same = scheduled-low i w p in
      let index : i % 16 ≡ i = omega arith in
      let word : get_or w (i % 16) 0 ≡ get_or s i 0 = h.holds i p (omega arith) in
      ap (λ (u : List ℕ). mixed ks (suc i) u (mix k (get_or u (i % 16) 0) st)) same
      ∙ mixed_lem ks (suc i) count w s (mix k (get_or w (i % 16) 0) st) (omega arith)
          (omega (arith, inside)) ext h
      ∙ ap (λ (x : ℕ). sha_mixed ks (suc i) s (mix k x st)) word
      ∙ ap (λ (x : Working). sha_mixed ks (suc i) s x) (mix-eq k (get_or s i 0) st)
  | no np ↦
      let e : i ≡ 16 = omega arith in
      mixed-high (k ∷ ks) i count w s st (omega arith) inside ext (rw e h)
]

length-words_of : (count : ℕ) (bytes : List ℕ) → length (words_of count bytes) ≡ count
unfolding words_of
length-words_of zero bytes = refl
length-words_of (suc count) bytes = ap suc (length-words_of count _)

get_or-append : (xs ys : List ℕ) (k : ℕ) → k < length xs → get_or (xs ++ ys) k 0 ≡ get_or xs k 0
get_or-append [] ys k h = absurd (omega arith)
get_or-append (x ∷ xs) ys zero h = refl
get_or-append (x ∷ xs) ys (suc k) h = get_or-append xs ys k (omega arith)

pub schedule-IsExtended :
    (block : List ℕ)
    → IsExtended 64 (schedule block) × IsWindow 16 (words_of 16 block) (schedule block)
unfolding schedule
schedule-IsExtended block =
    let words = words_of 16 block in
    let zeros : List ℕ = replicate 48 0 in
    let count = length-words_of 16 block in
    let whole : 16 + 48 ≡ length (words ++ zeros) =
      omega (arith, length-append words zeros, count) in
    let (ext, kept) =
      extended-IsExtended 16 48 (words ++ zeros) (omega arith) whole
        (λ k lo hi. absurd (omega arith)) in
    (
      ext,
      record {
        size = count;
        holds = λ k below near.
            let index : k % 16 ≡ k = omega arith in
            ap (λ (j : ℕ). get_or words j 0) index
            ∙ sym (get_or-append words zeros k (omega (arith, count, below)))
            ∙ sym (kept k below);
      },
    )
