-- ===== src/Metallib/Tags.antt =====
-- The function tags of metallib/src/lib.rs, read back, and when `package` refuses.
use llvm_metal.Base.{
  ℕ, zero, suc, ◌%◌, ◌^◌, ◌<◌, ◌≡◌, ◌≢◌, ◌↔◌, refl, sym, ◌∙◌, ap, true, false, Option, none, some,
  List, [], ◌∷◌, ◌++◌, Memᴰ, arith, length, length-append, slice, take, drop, from_le_bytes,
  to_le_bytes, from_le_bytes-to_le_bytes, length-to_le_bytes, replicate, if◌then◌else◌, ◌==◌, any,
  any_iff, ==_iff, Bool-cases, inl, inr, take-append, drop-append,
}
use native.Mathlib.Nat.{mod-eq_of_lt}
use mathlib.Core.Option
use mathlib.Core.List.Memᴰ
use llvm_metal.Metallib.{
  ok, package_air, tag, tags, endt, starts_with, name_tag, type_tag, hash_tag, offt_tag, vers_tag,
  mdsz_tag, bad_name, is_bitcode, group_size, total_size, container,
}

-- A reader of tags, up to the end tag. Each has four bytes of name and its length as a `u16`.
pub read_tags : ℕ → List ℕ → Option (List (List ℕ × List ℕ))
read_tags zero bytes = none
read_tags (suc fuel) bytes =
    let size = from_le_bytes (slice 4 2 bytes) in
    let rest = read_tags fuel (drop size (drop 6 bytes)) in
    if starts_with bytes endt
    then some []
    else Option.map (λ found. (take 4 bytes, take size (drop 6 bytes)) ∷ found) rest

-- One tag is read back, whatever follows it.
read_tags-tag :
    (fuel a b c d : ℕ) (content rest : List ℕ)
    → starts_with (a ∷ b ∷ c ∷ d ∷ []) endt ≡ false
    → length content < 2 ^ 16
    → read_tags (suc fuel) (tag (a ∷ b ∷ c ∷ d ∷ []) content ++ rest)
      ≡ Option.map (λ found. (a ∷ b ∷ c ∷ d ∷ [], content) ∷ found) (read_tags fuel rest)
unfolding read_tags tag starts_with to_le_bytes
read_tags-tag fuel a b c d content rest e h =
    let size : from_le_bytes (to_le_bytes 2 (length content % 2 ^ 16)) ≡ length content =
      from_le_bytes-to_le_bytes 2 (length content % 2 ^ 16) (omega arith) ∙ mod-eq_of_lt h in
    rw (e, size, take-append content rest, drop-append content rest) refl

module _ (digest : List ℕ → List ℕ) (name air : List ℕ) (digest_size : length (digest air) ≡ 32)
    (short : length name < 65535) where
  -- The tags that `package` writes, read back.
  abbrev pub written_tags : List (List ℕ × List ℕ)
  written_tags =
      (name_tag, name ++ 0 ∷ [])
      ∷ (type_tag, 2 ∷ [])
      ∷ (hash_tag, digest air)
      ∷ (offt_tag, replicate 24 0)
      ∷ (vers_tag, 2 ∷ 0 ∷ 4 ∷ 0 ∷ 3 ∷ 0 ∷ 0 ∷ 0 ∷ [])
      ∷ (mdsz_tag, to_le_bytes 8 (length air))
      ∷ []

  -- A reader of the tags finds the six of the source: the name with its closing NUL, the kind, the
  -- hash of the bitcode, the offsets, the versions and the size of the bitcode.
  pub read_tags-tags : read_tags 7 (tags digest name air) ≡ some written_tags
  unfolding tags starts_with
  read_tags-tags =
      rw
        (
          read_tags-tag 6 _ _ _ _ (name ++ 0 ∷ []) _ refl
              (omega (arith, length-append name (0 ∷ []))),
          read_tags-tag 5 _ _ _ _ (2 ∷ []) _ refl (omega arith),
          read_tags-tag 4 _ _ _ _ (digest air) _ refl (omega arith),
          read_tags-tag 3 _ _ _ _ (replicate 24 0) _ refl (omega arith),
          read_tags-tag 2 _ _ _ _ (2 ∷ 0 ∷ 4 ∷ 0 ∷ 3 ∷ 0 ∷ 0 ∷ 0 ∷ []) _ refl (omega arith),
          read_tags-tag 1 _ _ _ _ (to_le_bytes 8 (length air)) _ refl
              (omega (arith, length-to_le_bytes 8 (length air))),
        )
        (unfold read_tags in refl)

  group_size-lt : group_size digest name air < 2 ^ 32
  unfolding group_size tags tag to_le_bytes
  group_size-lt = simp (length-append, digest_size) (omega arith)

-- What `package` asks of its arguments.
pub record IsPackageable (digest : List ℕ → List ℕ) (name air : List ℕ) : Type 0 where
  pub nonempty : name ≢ []
  pub short : length name < 65535
  pub no_nul : ¬ Memᴰ 0 name
  pub bitcode : is_bitcode air ≡ true
  pub fits : total_size digest name air < 2 ^ 64

no_zero : (name : List ℕ) → (¬ Memᴰ 0 name) → any (λ b. b == 0) name ≡ false
no_zero name z = elim (Bool-cases (any (λ b. b == 0) name)) [
  | inl e ↦
      let (b, m, t) = (any_iff (λ b. b == 0) name).0 e in
      absurd (z (Memᴰ.cast (sym ((==_iff b 0).0 t)) m))
  | inr e ↦ e
]

length-pos : (name : List ℕ) → name ≢ [] → 0 < length name
length-pos [] h = absurd (h refl)
length-pos (x ∷ xs) h = omega arith

bad_name_iff :
    (name : List ℕ)
    → (bad_name name ≡ false) ↔ ((name ≢ []) × (length name < 65535) × (¬ Memᴰ 0 name))
unfolding bad_name
bad_name_iff name = (
  λ h. (
    λ e. ground (arith, ap length e),
    ground arith,
    λ m. let e = (any_iff (λ b. b == 0) name).1 (0, m, refl) in ground arith,
  ),
  λ (n, s, z). let first = no_zero name z in let positive = length-pos name n in ground arith,
)

-- `package` returns a container exactly for a name that is not empty, has no NUL and fits its tag, for
-- bitcode, and where the file's size fits 64 bits. The group of tags is never too large.
pub package_air_iff :
    (digest : List ℕ → List ℕ) (name air : List ℕ)
    → length (digest air) ≡ 32
    → (package_air digest name air ≡ ok (container digest name air)) ↔ IsPackageable digest name air
unfolding package_air
package_air_iff digest name air d = (
  λ h.
      let (n, s, z) = (bad_name_iff name).0 (ground arith) in
      record { nonempty = n; short = s; no_nul = z; bitcode = ground arith; fits = ground arith },
  λ p.
      let good = (bad_name_iff name).1 (p.nonempty, p.short, p.no_nul) in
      let group = group_size-lt digest name air d p.short in ground arith,
)
