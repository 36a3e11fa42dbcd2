-- ===== src/P256/Curve/Examples.antt =====
-- examples/p256/src/curve.rs with P-256's fields, and the signature over the fields of 5 and 3.
use llvm_metal.Base.{ℕ, ◌-◌, ◌*◌, ◌/◌, ◌<◌, ◌≡◌, refl, some, List, ◌∷◌, arith, replicate}
use llvm_metal.Modular.Value.{radix, value, IsLimbs-replicate}
use llvm_metal.Modular.Residue.{IsForm}
use llvm_metal.P256.{Field}
use llvm_metal.P256.Point.{Point}
use llvm_metal.P256.Curve.{
  generator, table, Key, field_of, key, finish, coordinate_prime, group_order, curve_b,
}
use llvm_metal.P256.Curve.Promises.{IsKey, radix_inverse, field_of-IsField, key-IsKey}
use llvm_metal.P256.Curve.Table.{IsTable, table_lem}
use llvm_metal.P256.Curve.Finished.{IsFinished, finish_lem}

abbrev small : ℕ → List ℕ
small x = x ∷ replicate 7 0

key-IsKey_example :
    (made : Key) × (key (small 7) ≡ some made)
    × (made.p.modulus ≡ coordinate_prime)
    × (made.n.modulus ≡ group_order)
    × IsKey made
        (radix_inverse coordinate_prime)
        (radix_inverse group_order)
        (value curve_b)
        (value (small 7))
key-IsKey_example = key-IsKey (small 7) refl (omega arith, IsLimbs-replicate 7)

abbrev small_field : ℕ → Field
small_field m = field_of (small m) (small (m - 2))

-- R is 1 modulo 5 and modulo 3.
one-IsForm : (x : ℕ) → x < 5 → IsForm (small 5) x (small x)
one-IsForm x h = record {
  reduced = record { size = refl; limbs = (omega arith, IsLimbs-replicate 7); below = omega arith };
  residue = record { left = x * (radix 8 / 5); right = 0; same = omega arith };
}

two-IsForm : IsForm (small 3) 2 (small 2)
two-IsForm = record {
  reduced = record { size = refl; limbs = (omega arith, IsLimbs-replicate 7); below = omega arith };
  residue = record { left = 2 * (radix 8 / 3); right = 0; same = refl };
}

abbrev small_key : Key
small_key = record { p = small_field 5; n = small_field 3; b3 = small 3; d = small 2 }

small_key-IsKey : IsKey small_key (radix_inverse (small 5)) (radix_inverse (small 3)) 1 2
unfolding field_of
small_key-IsKey = record {
  p =
      field_of-IsField (small 5) (small 3) (omega arith, IsLimbs-replicate 7)
        (omega arith, IsLimbs-replicate 7) refl refl (omega arith);
  n =
      field_of-IsField (small 3) (small 1) (omega arith, IsLimbs-replicate 7)
        (omega arith, IsLimbs-replicate 7) refl refl (omega arith);
  close = omega arith;
  b3 = one-IsForm 3 (omega arith);
  d = two-IsForm;
  exponent_p = refl;
  exponent_n = refl;
}

abbrev some_point : Point
some_point = record { x = small 2; y = small 1; z = small 4 }

finish_lem_example :
    IsFinished small_key 2 4
      (value (small 7))
      (value (small 2))
      2
      (finish some_point (small 7) (small 2) small_key)
unfolding field_of
finish_lem_example =
    finish_lem small_key (radix_inverse (small 5)) (radix_inverse (small 3)) 1 2 small_key-IsKey
      some_point 2 4 (one-IsForm 2 (omega arith)) (one-IsForm 4 (omega arith)) (small 7) (small 2)
      (omega arith, IsLimbs-replicate 7) (omega arith, IsLimbs-replicate 7) refl refl

table_lem_example : IsTable small_key 64 (generator small_key) (table small_key)
table_lem_example = table_lem small_key
