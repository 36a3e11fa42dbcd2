-- ===== src/Shallenge/Search.antt =====
-- `search` of examples/shallenge/kernel/src/lib.rs finds the smallest hash of its attempts.
use llvm_metal.Base.{
  ℕ, zero, suc, ◌+◌, ◌*◌, ◌%◌, ◌^◌, ◌<◌, ◌≤◌, ◌≡◌, ◌⊎◌, inl, inr, refl, sym, ◌∙◌, Bool, true, false,
  [], ◌∷◌, arith, length, ltb, bit_and-ones, bit_and-zero, bit_or-zero, zero-bit_or, if◌then◌else◌,
  Bool-cases, ltb→lt,
}
use native.Mathlib.Decide.{ℕ_discrete}
use llvm_metal.Modular.Value.{IsLimbs}
use llvm_metal.Modular.Select.{select_one, select_zero}
use llvm_metal.Shallenge.Compress.{compress}
use llvm_metal.Shallenge.{
  Request, Record, hash_at, smaller_words, attempt_one, attempts_from, search,
}
use llvm_metal.Shallenge.Smaller.{ones, smaller_words_lem}
use llvm_metal.Modular.BigEndian.{big_endian}

hash_at-IsLimbs : (request : Request) (counter : ℕ) → IsLimbs (hash_at request counter)
unfolding hash_at compress
hash_at-IsLimbs request counter = (
  omega arith,
  (
    omega arith,
    (omega arith, (omega arith, (omega arith, (omega arith, (omega arith, (omega arith, tt)))))),
  ),
)

length-hash_at : (request : Request) (counter : ℕ) → length (hash_at request counter) ≡ 8
unfolding hash_at compress
length-hash_at request counter = refl

-- A record with a hash of eight words and a counter of 64 bits.
pub record IsRecord (r : Record) : Type 0 where
  pub limbs : IsLimbs r.hash
  pub size : length r.hash ≡ 8
  pub small : r.counter < 2 ^ 64

-- What an attempt leaves: its own hash and counter if the hash is smaller, or the record as it was.
attempt_one_lem :
    (request : Request) (counter : ℕ) (best : Record)
    → IsRecord best
    → counter < 2 ^ 64
    → attempt_one request counter best ≡ (
        if ltb (big_endian (hash_at request counter)) (big_endian best.hash)
        then record { hash = hash_at request counter; counter = counter }
        else best)
unfolding attempt_one
attempt_one_lem request counter best good small =
    let hash = hash_at request counter in
    let limbs = hash_at-IsLimbs request counter in
    let size : length hash ≡ length best.hash = length-hash_at request counter ∙ sym good.size in
    let mask = smaller_words_lem hash best.hash limbs good.limbs size in
    elim (Bool-cases (ltb (big_endian hash) (big_endian best.hash))) [
      | inl e ↦
          let all : smaller_words 0 ones hash best.hash ≡ ones = mask ∙ rw e refl in
          rw
            (
              all,
              e,
              select_one hash best.hash limbs size,
              bit_and-ones 64 counter small,
              bit_and-zero best.counter,
              bit_or-zero counter,
            )
            refl
      | inr e ↦
          let nothing : smaller_words 0 ones hash best.hash ≡ 0 = mask ∙ rw e refl in
          rw
            (
              nothing,
              e,
              select_zero hash best.hash good.limbs size,
              bit_and-zero counter,
              bit_and-ones 64 best.counter good.small,
              zero-bit_or best.counter,
            )
            refl
    ]

-- The counter of an attempt.
abbrev pub counter_of : ℕ → ℕ → ℕ
counter_of first k = (first + k) % 2 ^ 64

-- The record of an attempt.
abbrev pub tried : Request → ℕ → Record
tried request counter = record { hash = hash_at request counter; counter = counter }

-- What the attempts from one on make of a record: the smallest, and one of those seen.
record IsFrom (request : Request) (first attempt left : ℕ) (best r : Record) : Type 0 where
  least :
      (k : ℕ)
      → attempt ≤ k
      → k < attempt + left
      → big_endian r.hash ≤ big_endian (hash_at request (counter_of first k))
  kept : big_endian r.hash ≤ big_endian best.hash
  found :
      (r ≡ best)
      ⊎ ((k : ℕ) × (attempt ≤ k) × (k < attempt + left) × (r ≡ tried request (counter_of first k)))

tried-IsRecord : (request : Request) (first k : ℕ) → IsRecord (tried request (counter_of first k))
tried-IsRecord request first k = record {
  limbs = hash_at-IsLimbs request (counter_of first k);
  size = length-hash_at request (counter_of first k);
  small = omega arith;
}

not_less : (x y : ℕ) → ltb x y ≡ false → y ≤ x
not_less x y e = ground arith

-- One attempt: the smaller of the two.
attempt_one-IsFrom :
    (request : Request) (first attempt : ℕ) (best : Record)
    → IsRecord best
    → IsFrom request first attempt 1 best (attempt_one request (counter_of first attempt) best)
      × IsRecord (attempt_one request (counter_of first attempt) best)
attempt_one-IsFrom request first attempt best good =
    let counter = counter_of first attempt in
    let e = attempt_one_lem request counter best good (omega arith) in
    rw e (by_test (ltb (big_endian (hash_at request counter)) (big_endian best.hash)) refl)
  where
    c : ℕ
    c = counter_of first attempt

    only : (k : ℕ) → attempt ≤ k → k < attempt + 1 → attempt ≡ k
    only k lo hi = omega arith

    by_test :
        (t : Bool)
        → ltb (big_endian (hash_at request c)) (big_endian best.hash) ≡ t
        → IsFrom request first attempt 1 best (if t then tried request c else best)
          × IsRecord (if t then tried request c else best)
    by_test true e = (
      record {
        least = λ k lo hi. rw (sym (only k lo hi)) (omega arith);
        kept = let less = ltb→lt _ _ e in omega arith;
        found = inr (attempt, omega arith, omega arith, refl);
      },
      tried-IsRecord request first attempt,
    )
    by_test false e = (
      record {
        least = λ k lo hi. rw (sym (only k lo hi)) (not_less _ _ e);
        kept = omega arith;
        found = inl refl;
      },
      good,
    )

attempts_from-IsFrom :
    (request : Request) (first attempt left : ℕ) (best : Record)
    → IsRecord best
    → IsFrom request first attempt left best (attempts_from request first attempt left best)
unfolding attempts_from
attempts_from-IsFrom request first attempt zero best good = record {
  least = λ k lo hi. absurd (omega arith);
  kept = omega arith;
  found = inl refl;
}
attempts_from-IsFrom request first attempt (suc left) best good =
    let (one, next_good) = attempt_one-IsFrom request first attempt best good in
    let rest = attempts_from-IsFrom request first (suc attempt) left _ next_good in
    record {
      least = λ k lo hi. elim (ℕ_discrete k attempt) [
        | yes same ↦
            let now = one.least k lo (omega (arith, same)) in
            let before = rest.kept in omega (arith, now, before)
        | no differ ↦ rest.least k (omega arith) (omega arith)
      ];
      kept = let now = one.kept in let before = rest.kept in omega (arith, now, before);
      found = elim rest.found [
        | inr (k, lo, hi, e) ↦ inr (k, omega arith, omega arith, e)
        | inl e ↦ elim one.found [
          | inl e' ↦ inl (e ∙ e')
          | inr (k, lo, hi, e') ↦ inr (k, lo, omega arith, e ∙ e')
        ]
      ];
    }

-- The first counter of a thread.
abbrev pub first_counter : Request → ℕ → ℕ
first_counter request thread = (request.base + thread * request.attempts % 2 ^ 64) % 2 ^ 64

-- The record that a thread starts from.
abbrev pub unsolved : ℕ → Record
unsolved first = record {
  hash = ones ∷ ones ∷ ones ∷ ones ∷ ones ∷ ones ∷ ones ∷ ones ∷ [];
  counter = first;
}

-- The smallest of `count` attempts from the first on.
pub record IsSmallest (request : Request) (first count : ℕ) (r : Record) : Type 0 where
  pub least :
      (k : ℕ) → k < count → big_endian r.hash ≤ big_endian (hash_at request (counter_of first k))
  pub found :
      (r ≡ unsolved first) ⊎ ((k : ℕ) × (k < count) × (r ≡ tried request (counter_of first k)))

-- The search of a thread returns a record whose hash, as a big-endian number, is no larger than that of
-- any of its attempts, and it is the record of one of them, or the one of all ones that it starts from.
pub search_lem :
    (request : Request) (thread : ℕ)
    → IsSmallest request (first_counter request thread) request.attempts (search request thread)
unfolding search
search_lem request thread =
    let first = first_counter request thread in
    let r = attempts_from-IsFrom request first 0 request.attempts (unsolved first) (record {
      limbs = (
        omega arith,
        (
          omega arith,
          (
            omega arith,
            (omega arith, (omega arith, (omega arith, (omega arith, (omega arith, tt))))),
          ),
        ),
      );
      size = refl;
      small = omega arith;
    }) in
    record {
      least = λ k h. r.least k (omega arith) (omega arith);
      found = elim r.found [ inl e ↦ inl e | inr (k, lo, hi, e) ↦ inr (k, omega arith, e) ];
    }
