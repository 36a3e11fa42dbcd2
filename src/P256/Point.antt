-- ===== src/P256/Point.antt =====
-- examples/p256/kernel/src/point.rs: points in projective coordinates, and their complete addition.
pub mod Reduced
use llvm_metal.Base.{ℕ, List, [], ◌∷◌, replicate}
use llvm_metal.P256.{Field, mul, add, sub, triple}

pub record Point : Type 0 where
  pub x : List ℕ
  pub y : List ℕ
  pub z : List ℕ

pub identity : Field → Point
identity f = record { x = replicate 8 0; y = f.one; z = replicate 8 0 }

module _ (f : Field) where
  -- The closure `cross`.
  pub cross : List ℕ → List ℕ → List ℕ → List ℕ → List ℕ → List ℕ → List ℕ
  cross a1 b1 a2 b2 aa bb =
      let product = mul f (add f a1 b1) (add f a2 b2) in sub f product (add f aa bb)

  pub add_points : Point → Point → List ℕ → Point
  add_points p q b3 =
      let xx = mul f p.x q.x in
      let yy = mul f p.y q.y in
      let zz = mul f p.z q.z in
      let xy = cross p.x p.y q.x q.y xx yy in
      let xz = cross p.x p.z q.x q.z xx zz in
      let yz = cross p.y p.z q.y q.z yy zz in
      let u = sub f (mul f b3 zz) (triple f xz) in
      let zz3 = triple f zz in
      let w = sub f (mul f b3 xz) (add f (triple f xx) (triple f zz3)) in
      let t = sub f (triple f xx) zz3 in
      let low = sub f yy u in
      let high = add f yy u in
      record {
        x = sub f (mul f xy low) (mul f yz w);
        y = add f (mul f low high) (mul f t w);
        z = add f (mul f yz high) (mul f xy t);
      }
