-- ===== src/P256/Curve/Table.antt =====
-- `table` of examples/p256/src/curve.rs: entry i * 16 + w is w times the base of window i.
use llvm_metal.Base.{
  ℕ, zero, suc, ◌+◌, ◌*◌, ◌<◌, ◌≡◌, refl, ap, ◌∙◌, some, List, [], ◌∷◌, ◌++◌, arith, length,
  length-append, get_elem?,
}
use llvm_metal.P256.Point.{Point, identity, add_points}
use llvm_metal.P256.Curve.{Key, generator, multiples, table_rows, table}

get_elem?-left {ℓ} :
    {A : Type ℓ} (xs ys : List A) (i : ℕ) → i < length xs → get_elem? (xs ++ ys) i ≡ get_elem? xs i
get_elem?-left [] ys i h = absurd (omega arith)
get_elem?-left (x ∷ xs) ys zero h = refl
get_elem?-left (x ∷ xs) ys (suc i) h = get_elem?-left xs ys i (omega arith)

get_elem?-right {ℓ} :
    {A : Type ℓ} (xs ys : List A) (n i : ℕ)
    → length xs ≡ n
    → get_elem? (xs ++ ys) (n + i) ≡ get_elem? ys i
get_elem?-right [] ys n i e =
    let same : n + i ≡ i = omega arith in ap (λ (k : ℕ). get_elem? ys k) same
get_elem?-right (x ∷ xs) ys zero i e = absurd (omega arith)
get_elem?-right (x ∷ xs) ys (suc n) i e =
    let same : suc n + i ≡ suc (n + i) = omega arith in
    ap (λ (k : ℕ). get_elem? (x ∷ (xs ++ ys)) k) same ∙ get_elem?-right xs ys n i (omega arith)

get_elem?-each {ℓ} :
    {A : Type ℓ} (x : A) (xs : List A) (f : ℕ → A) (count : ℕ)
    → x ≡ f zero
    → ((v : ℕ) → v < count → get_elem? xs v ≡ some (f (suc v)))
    → (w : ℕ) → w < suc count
    → get_elem? (x ∷ xs) w ≡ some (f w)
get_elem?-each x xs f count e each zero h = ap some e
get_elem?-each x xs f count e each (suc v) h = each v (omega arith)

module _ (key : Key) where
  -- A point, with another added to it `count` times.
  abbrev pub added : Point → ℕ → Point → Point
  added base zero start = start
  added base (suc count) start = added base count (add_points key.p start base key.b3)

  -- `count` times a point.
  abbrev pub times : ℕ → Point → Point
  times count base = added base count (identity key.p)

  -- 16 ^ i times a point, by taking it 16 times again and again.
  abbrev pub window_base : ℕ → Point → Point
  window_base zero base = base
  window_base (suc i) base = window_base i (times 16 base)

  record IsRow (base : Point) (count : ℕ) (start : Point) (row : List Point × Point) : Type 0 where
    size : length row.0 ≡ count
    last : row.1 ≡ added base count start
    each : (w : ℕ) → w < count → get_elem? row.0 w ≡ some (added base w start)

  multiples_lem :
      (base start : Point) (count : ℕ) → IsRow base count start (multiples key base count start)
  unfolding multiples
  multiples_lem base start zero = record {
    size = refl;
    last = refl;
    each = λ w h. absurd (omega arith);
  }
  multiples_lem base start (suc count) =
      let rest = multiples_lem base (add_points key.p start base key.b3) count in
      record {
        size = ap suc rest.size;
        last = rest.last;
        each = get_elem?-each start _ (λ w. added base w start) count refl rest.each;
      }

  pub record IsTable (windows : ℕ) (base : Point) (points : List Point) : Type 0 where
    pub size : length points ≡ 16 * windows
    pub each :
        (i w : ℕ)
        → i < windows
        → w < 16
        → get_elem? points (16 * i + w) ≡ some (times w (window_base i base))

  table_rows_lem : (windows : ℕ) (base : Point) → IsTable windows base (table_rows key windows base)
  unfolding table_rows
  table_rows_lem zero base = record { size = refl; each = λ i w h k. absurd (omega arith) }
  table_rows_lem (suc windows) base =
      let row = multiples_lem base (identity key.p) 16 in
      let points = (multiples key base 16 (identity key.p)).0 in
      let next = (multiples key base 16 (identity key.p)).1 in
      let rest = table_rows_lem windows next in
      let later = table_rows key windows next in
      record {
        size = omega (arith, length-append points later, row.size, rest.size);
        each = λ i w h k. by_window points next later row.size row.last row.each rest.each i w h k;
      }
    where
      by_window :
          (points : List Point) (next : Point) (later : List Point)
          → length points ≡ 16
          → next ≡ times 16 base
          → ((w : ℕ) → w < 16 → get_elem? points w ≡ some (times w base))
          → ((i w : ℕ)
              → i < windows
              → w < 16
              → get_elem? later (16 * i + w) ≡ some (times w (window_base i next)))
          → (i w : ℕ) → i < suc windows
          → w < 16
          → get_elem? (points ++ later) (16 * i + w) ≡ some (times w (window_base i base))
      by_window points next later size last each further zero w h k =
          let e : 16 * 0 + w ≡ w = omega arith in
          ap (λ (j : ℕ). get_elem? (points ++ later) j) e
          ∙ get_elem?-left points later w (omega arith)
          ∙ each w k
      by_window points next later size last each further (suc i) w h k =
          let e : 16 * suc i + w ≡ 16 + (16 * i + w) = omega arith in
          ap (λ (j : ℕ). get_elem? (points ++ later) j) e
          ∙ get_elem?-right points later 16 (16 * i + w) size
          ∙ further i w (omega arith) k
          ∙ ap (λ (b : Point). some (times w (window_base i b))) last

  -- The table has 1024 points, and the point at 16 * i + w is w times the base of window i, for w below 16 and i
  -- below 64. The base of window 0 is the generator, and that of the next window is 16 times the base.
  pub table_lem : IsTable 64 (generator key) (table key)
  unfolding table
  table_lem = table_rows_lem 64 (generator key)
