-- ===== src/Shallenge/Filled.antt =====
-- The loop of `search` in examples/shallenge/kernel/src/lib.rs that writes the nonce into the block.
use llvm_metal.Base.{
  ℕ, zero, suc, ◌+◌, ◌-◌, ◌*◌, ◌/◌, ◌%◌, ◌^◌, ◌<◌, ◌≤◌, ◌≡◌, refl, sym, ap, ◌∙◌, List, [], ◌∷◌,
  ◌++◌, arith, length, length-append, get_or, set, take, drop, replicate, map, range_from, bit_or,
  bit_or-field,
}
use mathlib.Core.List.{append_assoc}
use llvm_metal.Shallenge.{Request, base64, character, fill}
use llvm_metal.Shallenge.Sha.{words_of, be_word}

abbrev pub IsBytes : List ℕ → Type 0
IsBytes [] = Unit {0}
IsBytes (b ∷ bs) = (b < 256) × IsBytes bs

pub IsBytes-append : (xs ys : List ℕ) → IsBytes xs → IsBytes ys → IsBytes (xs ++ ys)
IsBytes-append [] ys h k = k
IsBytes-append (x ∷ xs) ys (h, hs) k = (h, IsBytes-append xs ys hs k)

pub IsBytes-zeros : (n : ℕ) → IsBytes (replicate n 0)
IsBytes-zeros zero = tt
IsBytes-zeros (suc n) = (omega arith, IsBytes-zeros n)

get_or-take-lt : (n i : ℕ) (bs : List ℕ) → IsBytes bs → get_or (take n bs) i 0 < 256
get_or-take-lt zero i bs h = omega arith
get_or-take-lt (suc n) i [] h = omega arith
get_or-take-lt (suc n) zero (b ∷ bs) (h, hs) = h
get_or-take-lt (suc n) (suc i) (b ∷ bs) (h, hs) = get_or-take-lt n i bs hs

base64-lt : (v : ℕ) → v < 64 → base64 v < 256
unfolding base64
base64-lt v h = ground arith

-- A character is one byte.
pub character-lt : (counter salt i : ℕ) → character counter salt i < 256
unfolding character
character-lt counter salt i = base64-lt _ (omega arith)

-- The or of one byte into word k / 4, at the place that k % 4 names.
abbrev or_at : List ℕ → ℕ → ℕ → List ℕ
or_at words k c =
    set words (k / 4) (bit_or (get_or words (k / 4) 0) (c * 2 ^ (24 - 8 * (k % 4)) % 2 ^ 32))

or_word :
    (m hi lo c word result : ℕ)
    → lo < 2 ^ m
    → c < 256
    → c * 2 ^ m % 2 ^ 32 ≡ c * 2 ^ m
    → word ≡ hi * 2 ^ 8 * 2 ^ m + lo
    → result ≡ word + c * 2 ^ m
    → bit_or word (c * 2 ^ m % 2 ^ 32) ≡ result
or_word m hi lo c word result low small fits e f =
    rw (fits, f, e) (bit_or-field 8 m hi lo c low small)

-- A zero byte of the block takes the byte written there.
or_at_lem :
    (n : ℕ) (xs ys : List ℕ) (c : ℕ)
    → length xs < 4 * n
    → IsBytes xs
    → IsBytes ys
    → c < 256
    → or_at (words_of n (xs ++ 0 ∷ ys)) (length xs) c ≡ words_of n (xs ++ c ∷ ys)
unfolding words_of
or_at_lem zero xs ys c h k l small = absurd (omega arith)
or_at_lem (suc n) [] ys c h k l small =
    let p = get_or-take-lt 3 0 ys l in
    let q = get_or-take-lt 3 1 ys l in
    let r = get_or-take-lt 3 2 ys l in
    ap (λ (w : ℕ). w ∷ words_of n (drop 3 ys))
      (or_word 24 0
        (get_or (take 3 ys) 0 0 * 2 ^ 16 + get_or (take 3 ys) 1 0 * 2 ^ 8 + get_or (take 3 ys) 2 0)
        c _ _ (omega arith) small (omega arith) (omega arith) (omega arith))
or_at_lem (suc n) (x ∷ []) ys c h (k0, k) l small =
    let q = get_or-take-lt 2 0 ys l in
    let r = get_or-take-lt 2 1 ys l in
    ap (λ (w : ℕ). w ∷ words_of n (drop 2 ys))
      (or_word 16 x (get_or (take 2 ys) 0 0 * 2 ^ 8 + get_or (take 2 ys) 1 0) c _ _ (omega arith)
        small (omega arith) (omega arith) (omega arith))
or_at_lem (suc n) (x ∷ x' ∷ []) ys c h (k0, (k1, k)) l small =
    let r = get_or-take-lt 1 0 ys l in
    ap (λ (w : ℕ). w ∷ words_of n (drop 1 ys))
      (or_word 8 (x * 2 ^ 8 + x') (get_or (take 1 ys) 0 0) c _ _ (omega arith) small (omega arith)
        (omega arith) (omega arith))
or_at_lem (suc n) (x ∷ x' ∷ x'' ∷ []) ys c h (k0, (k1, (k2, k))) l small =
    ap (λ (w : ℕ). w ∷ words_of n ys)
      (or_word 0 (x * 2 ^ 16 + x' * 2 ^ 8 + x'') 0 c _ _ (omega arith) small (omega arith)
        (omega arith) (omega arith))
or_at_lem (suc n) (x ∷ x' ∷ x'' ∷ y ∷ xs) ys c h (k0, (k1, (k2, (k3, k)))) l small =
    let word : suc (suc (suc (suc (length xs)))) / 4 ≡ suc (length xs / 4) = omega arith in
    let place : suc (suc (suc (suc (length xs)))) % 4 ≡ length xs % 4 = omega arith in
    rw (word, place)
      (ap (λ (r : List ℕ). be_word (x ∷ x' ∷ x'' ∷ y ∷ []) ∷ r)
        (or_at_lem n xs ys c (omega arith) k l small))

-- The characters of the nonce from one on.
abbrev pub characters_from : Request → ℕ → ℕ → ℕ → List ℕ
characters_from request counter i left =
    map (λ j. character counter request.salt j % 2 ^ 8) (range_from i left)

-- Where the block has zeros after the bytes before the nonce, the loop writes the characters.
pub fill_lem :
    (request : Request) (counter left i : ℕ) (xs ys : List ℕ)
    → length xs ≡ request.offset + i
    → length xs + left ≤ 64
    → IsBytes xs
    → IsBytes ys
    → fill request counter left i (words_of 16 (xs ++ (replicate left 0 ++ ys)))
      ≡ words_of 16 (xs ++ (characters_from request counter i left ++ ys))
unfolding fill
fill_lem request counter zero i xs ys e h k l = refl
fill_lem request counter (suc left) i xs ys e h k l =
    let c = character counter request.salt i in
    let small : c < 256 = character-lt counter request.salt i in
    let byte : c % 2 ^ 8 ≡ c = omega arith in
    let rest = replicate left 0 ++ ys in
    let place : (request.offset + i) / 4 % 16 ≡ (request.offset + i) / 4 = omega arith in
    let written : or_at (words_of 16 (xs ++ 0 ∷ rest)) (request.offset + i) c
        ≡ words_of 16 (xs ++ c ∷ rest) =
      rw (sym e) (
        or_at_lem 16 xs rest c (omega arith) k
          (IsBytes-append (replicate left 0) ys (IsBytes-zeros left) l) small) in
    let moved = append_assoc xs (c ∷ []) rest in
    let after = append_assoc xs (c ∷ []) (characters_from request counter (suc i) left ++ ys) in
    let next =
      fill_lem request counter left (suc i) (xs ++ c ∷ []) ys
        (omega (arith, length-append xs (c ∷ []))) (omega (arith, length-append xs (c ∷ [])))
        (IsBytes-append xs (c ∷ []) k (small, tt)) l in
    rw (place, byte)
      (ap (λ (b : List ℕ). fill request counter left (suc i) b)
          (written ∙ ap (λ (b : List ℕ). words_of 16 b) (sym moved))
        ∙ next
        ∙ ap (λ (b : List ℕ). words_of 16 b) after)
