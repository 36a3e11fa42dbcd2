-- ===== src/P256/Curve/Promises.antt =====
-- The constants that `field` and `key` of examples/p256/src/curve.rs derive are what the kernel's field needs.
use llvm_metal.Base.{
  ℕ, ◌+◌, ◌*◌, ◌/◌, ◌%◌, ◌^◌, ◌<◌, ◌≡◌, refl, sym, ◌∙◌, ap, some, List, arith, length, get_or,
}
use llvm_metal.Modular.Value.{radix, value, IsLimbs}
use llvm_metal.Modular.Residue.{IsForm}
use llvm_metal.Rsa.Key.Halves.{odd-IsModulus, power-IsForm}
use llvm_metal.Rsa.Key.Inverse.{less_two_lem}
use llvm_metal.P256.{Field, limb_count, enter}
use llvm_metal.P256.Laws.{IsField, enter-IsForm, triple-IsForm}
use llvm_metal.P256.Curve.{
  field, field_of, key, key_of, Key, coordinate_prime, group_order, curve_b,
}

-- 1 / R modulo an odd number.
abbrev pub radix_inverse : List ℕ → ℕ
radix_inverse m = (value m / 2 + 1) ^ (32 * length m)

-- What the host promises of the two fields, and what b3 and d stand for: 3 * b and the private key.
pub record IsKey (key : Key) (inverse_p inverse_n b secret : ℕ) : Type 0 where
  pub p : IsField key.p inverse_p
  pub n : IsField key.n inverse_n
  pub close : value key.p.modulus < 2 * value key.n.modulus
  pub b3 : IsForm key.p.modulus (b + b + b) key.b3
  pub d : IsForm key.n.modulus secret key.d
  pub exponent_p : value key.p.inverse_exponent + 2 ≡ value key.p.modulus
  pub exponent_n : value key.n.inverse_exponent + 2 ≡ value key.n.modulus

pub field_of-IsField :
    (m exponent : List ℕ)
    → IsLimbs m
    → IsLimbs exponent
    → length m ≡ limb_count
    → value m % 2 ≡ 1
    → 1 < value m
    → IsField (field_of m exponent) (radix_inverse m)
unfolding field_of
field_of-IsField m exponent limbs le size odd big =
    let one : 2 ^ (32 * limb_count) ≡ 1 * radix (length m) = rw size refl in
    let two : 2 ^ (64 * limb_count) ≡ radix limb_count * radix (length m) = rw size refl in
    record {
      modulus = odd-IsModulus m limbs big odd;
      count = size;
      one = power-IsForm m (32 * limb_count) 1 limbs big one;
      r2 = power-IsForm m (64 * limb_count) (radix limb_count) limbs big two;
      exponent = le;
    }

-- The field of an odd modulus of eight limbs, the lowest of them above 1.
field-IsField :
    (m : List ℕ)
    → IsLimbs m
    → length m ≡ limb_count
    → value m % 2 ≡ 1
    → 1 < get_or m 0 0
    → 1 < value m
    → (f : Field) × (field m ≡ some f)
      × (f.modulus ≡ m)
      × IsField f (radix_inverse m)
      × (value f.inverse_exponent + 2 ≡ value m)
unfolding field field_of
field-IsField m limbs size odd low big =
    let (exponent, made, count, le, total) = less_two_lem m limbs low in
    (
      field_of m exponent,
      rw made refl,
      refl,
      field_of-IsField m exponent limbs le size odd big,
      total,
    )

coordinate-IsLimbs : IsLimbs coordinate_prime
coordinate-IsLimbs = omega arith

order-IsLimbs : IsLimbs group_order
order-IsLimbs = omega arith

key_made :
    (d : List ℕ) (p n : Field)
    → field coordinate_prime ≡ some p
    → field group_order ≡ some n
    → key d ≡ some (key_of p n d)
unfolding key
key_made d p n made_p made_n = rw (made_p, made_n, key) refl

key_of-IsKey :
    (d : List ℕ) (p n : Field) (inverse_p inverse_n : ℕ)
    → length d ≡ limb_count
    → IsLimbs d
    → IsField p inverse_p
    → IsField n inverse_n
    → p.modulus ≡ coordinate_prime
    → n.modulus ≡ group_order
    → value p.inverse_exponent + 2 ≡ value coordinate_prime
    → value n.inverse_exponent + 2 ≡ value group_order
    → IsKey (key_of p n d) inverse_p inverse_n (value curve_b) (value d)
unfolding key_of
key_of-IsKey d p n inverse_p inverse_n size limbs good_p good_n is_p is_n ep en =
    let b : IsLimbs curve_b = omega arith in
    let value_p = ap value is_p in
    let value_n = ap value is_n in
    record {
      p = good_p;
      n = good_n;
      close = omega (arith, value_p, value_n);
      b3 =
          triple-IsForm p inverse_p good_p (enter p curve_b) (value curve_b)
            (enter-IsForm p inverse_p good_p curve_b refl b);
      d = enter-IsForm n inverse_n good_n d size limbs;
      exponent_p = ep ∙ sym value_p;
      exponent_n = en ∙ sym value_n;
    }

-- For a private key of eight limbs `key` makes a key, of the fields of P-256, which keeps its promises: the
-- constants of each field are what its arithmetic needs, and b3 and d stand for 3 * b and the private key.
pub key-IsKey :
    (d : List ℕ)
    → length d ≡ limb_count
    → IsLimbs d
    → (made : Key) × (key d ≡ some made)
      × (made.p.modulus ≡ coordinate_prime)
      × (made.n.modulus ≡ group_order)
      × IsKey made
          (radix_inverse coordinate_prime)
          (radix_inverse group_order)
          (value curve_b)
          (value d)
unfolding key_of
key-IsKey d size limbs =
    let (p, made_p, is_p, good_p, ep) =
      field-IsField coordinate_prime coordinate-IsLimbs refl refl (omega arith) (omega arith) in
    let (n, made_n, is_n, good_n, en) =
      field-IsField group_order order-IsLimbs refl refl (omega arith) (omega arith) in
    (
      key_of p n d,
      key_made d p n made_p made_n,
      is_p,
      is_n,
      key_of-IsKey d p n _ _ size limbs good_p good_n is_p is_n ep en,
    )
