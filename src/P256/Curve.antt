-- ===== src/P256/Curve.antt =====
-- examples/p256/src/curve.rs and the rest of examples/p256/kernel/src/lib.rs: the constants, the key, the last
-- step of a signature, and the host's side of the curve. A text is given as the limbs that `number` reads.
pub mod Promises
pub mod Finished
pub mod Table
mod Examples
use llvm_metal.Base.{
  ℕ, zero, suc, ◌+◌, ◌-◌, ◌*◌, ◌/◌, ◌%◌, ◌^◌, Bool, true, false, not, ◌&&◌, Option, none, some,
  List, [], ◌∷◌, ◌++◌, length, replicate, get_or, ◌==◌, if◌then◌else◌,
}
use mathlib.Core.Option
use llvm_metal.Modular.{reduce}
use llvm_metal.Modular.Scan.{bit_of}
use llvm_metal.Rsa.Key.{power_of_two, n0inv, less_two}
use llvm_metal.Rsa.Public.{equal_limbs}
use llvm_metal.P256.{Field, limb_count, mul, add, triple, enter, leave, invert}
use llvm_metal.P256.Point.{Point, identity, add_points}

-- `P`, `N`, `B`, `GX` and `GY`
abbrev pub coordinate_prime : List ℕ
coordinate_prime = 4294967295 ∷ 4294967295 ∷ 4294967295 ∷ 0 ∷ 0 ∷ 0 ∷ 1 ∷ 4294967295 ∷ []

abbrev pub group_order : List ℕ
group_order =
    4234356049 ∷ 4089039554 ∷ 2803342980 ∷ 3169254061 ∷ 4294967295 ∷ 4294967295 ∷ 0 ∷ 4294967295
    ∷ []

abbrev pub curve_b : List ℕ
curve_b =
    668098635 ∷ 1003371582 ∷ 3428036854 ∷ 1696401072 ∷ 1989707452 ∷ 3018571093 ∷ 2855965671
    ∷ 1522939352 ∷ []

abbrev pub generator_x : List ℕ
generator_x =
    3633889942 ∷ 4104206661 ∷ 770388896 ∷ 1996717441 ∷ 1671708914 ∷ 4173129445 ∷ 3777774151
    ∷ 1796723186 ∷ []

abbrev pub generator_y : List ℕ
generator_y =
    935285237 ∷ 3417718888 ∷ 1798397646 ∷ 734933847 ∷ 2081398294 ∷ 2397563722 ∷ 4263149467
    ∷ 1340293858 ∷ []

-- The record of `field`, with the exponent that the subtraction leaves. Its doubling and its iteration are the
-- loops of examples/rsa/src/key.rs.
pub field_of : List ℕ → List ℕ → Field
field_of modulus exponent = record {
  modulus = modulus;
  one = power_of_two (32 * limb_count) modulus;
  r2 = power_of_two (64 * limb_count) modulus;
  inverse_exponent = exponent;
  n0inv = n0inv (get_or modulus 0 0);
}

-- `field`; where m - 2 borrows, the subtraction overflows, which is none.
pub field : List ℕ → Option Field
field modulus = Option.map (field_of modulus) (less_two modulus)

pub record Key : Type 0 where
  pub p : Field
  pub n : Field
  pub b3 : List ℕ
  pub d : List ℕ

-- The key of two fields.
pub key_of : Field → Field → List ℕ → Key
key_of p n d = record { b3 = triple p (enter p curve_b); d = enter n d; p = p; n = n }

-- `key`
pub key : List ℕ → Option Key
key d = elim (field coordinate_prime) [
  | none ↦ none
  | some p ↦ Option.map (λ n. key_of p n d) (field group_order)
]

pub generator : Key → Point
generator key = record { x = enter key.p generator_x; y = enter key.p generator_y; z = key.p.one }

pub record Request : Type 0 where
  pub z : List ℕ
  pub k : List ℕ

pub record Signature : Type 0 where
  pub r : List ℕ
  pub s : List ℕ

-- `finish`
pub finish : Point → List ℕ → List ℕ → Key → Signature
finish sum z k key =
    let p = key.p in
    let n = key.n in
    let x = leave p (mul p sum.x (invert p sum.z)) in
    let r = reduce x 0 n.modulus in
    let rd = mul n (enter n r) key.d in
    let s = mul n (invert n (enter n k)) (add n (enter n z) rd) in record { r = r; s = leave n s }

-- One round of `multiply`.
pub multiply_step : List ℕ → Point → Key → ℕ → Point → Point
multiply_step scalar point key bit sum =
    let doubled = add_points key.p sum sum key.b3 in
    if bit_of scalar bit == 1 then add_points key.p doubled point key.b3 else doubled

-- The loop of `multiply` over the bits below `count`, the highest first.
pub multiply_steps : List ℕ → Point → Key → ℕ → Point → Point
multiply_steps scalar point key zero sum = sum
multiply_steps scalar point key (suc bit) sum =
    multiply_steps scalar point key bit (multiply_step scalar point key bit sum)

pub multiply : List ℕ → Point → Key → Point
multiply scalar point key = multiply_steps scalar point key (32 * limb_count) (identity key.p)

-- `affine`
pub affine : Point → Key → Option (List ℕ × List ℕ)
affine point key =
    let p = key.p in
    let inverse = invert p point.z in
    if not (equal_limbs point.z (replicate limb_count 0))
    then some (leave p (mul p point.x inverse), leave p (mul p point.y inverse))
    else none

-- The inner loop of `table`: `count` multiples of the base from `multiple` on, and the one after them.
pub multiples : Key → Point → ℕ → Point → List Point × Point
multiples key base zero multiple = ([], multiple)
multiples key base (suc count) multiple =
    let (rest, last) = multiples key base count (add_points key.p multiple base key.b3) in
    (multiple ∷ rest, last)

-- The outer loop.
pub table_rows : Key → ℕ → Point → List Point
table_rows key zero base = []
table_rows key (suc windows) base =
    let (row, next) = multiples key base 16 (identity key.p) in row ++ table_rows key windows next

pub table : Key → List Point
table key = table_rows key 64 (generator key)

-- `verifies` of curve.rs
pub accepts : Signature → List ℕ → Point → Key → Bool
accepts signature z public key =
    let n = key.n in
    let inverse = invert n (enter n signature.s) in
    let u1 = leave n (mul n (enter n z) inverse) in
    let u2 = leave n (mul n (enter n signature.r) inverse) in
    let sum = add_points key.p (multiply u1 (generator key) key) (multiply u2 public key) key.b3 in
    elim (affine sum key) [
      | none ↦ false
      | some coordinates ↦ equal_limbs (reduce coordinates.0 0 n.modulus) signature.r
    ]
