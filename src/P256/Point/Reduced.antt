-- ===== src/P256/Point/Reduced.antt =====
-- Points of examples/p256/kernel/src/point.rs keep their coordinates below the prime.
use llvm_metal.Base.{ℕ, sym, List, arith, replicate}
use llvm_metal.Modular.Value.{IsLimbs-replicate, value-replicate}
use llvm_metal.Modular.Add.{modadd_lem, modsub_lem}
use llvm_metal.Modular.Residue.{IsReducedLimbs, montmul_reduced}
use llvm_metal.P256.{Field, mul, add, sub, triple}
use llvm_metal.P256.Laws.{IsField}
use llvm_metal.P256.Point.{Point, identity, cross, add_points}

-- Every coordinate is eight limbs of a number below the prime.
pub record IsPoint (f : Field) (p : Point) : Type 0 where
  pub x : IsReducedLimbs f.modulus p.x
  pub y : IsReducedLimbs f.modulus p.y
  pub z : IsReducedLimbs f.modulus p.z

module _ (f : Field) (inverse : ℕ) (good : IsField f inverse) where
  mul-IsReducedLimbs :
      {a b : List ℕ}
      → IsReducedLimbs f.modulus a
      → IsReducedLimbs f.modulus b
      → IsReducedLimbs f.modulus (mul f a b)
  unfolding mul
  mul-IsReducedLimbs {a} {b} p q =
      (montmul_reduced f.modulus f.n0inv inverse good.modulus a b p.size p.limbs q).0

  add-IsReducedLimbs :
      {a b : List ℕ}
      → IsReducedLimbs f.modulus a
      → IsReducedLimbs f.modulus b
      → IsReducedLimbs f.modulus (add f a b)
  unfolding add
  add-IsReducedLimbs {a} {b} p q =
      let r =
        modadd_lem a b f.modulus p.limbs q.limbs good.modulus.limbs p.size q.size p.below q.below in
      record { size = r.size; limbs = r.limbs; below = r.below }

  sub-IsReducedLimbs :
      {a b : List ℕ}
      → IsReducedLimbs f.modulus a
      → IsReducedLimbs f.modulus b
      → IsReducedLimbs f.modulus (sub f a b)
  unfolding sub
  sub-IsReducedLimbs {a} {b} p q =
      let r =
        modsub_lem a b f.modulus p.limbs q.limbs good.modulus.limbs p.size q.size p.below q.below in
      record { size = r.size; limbs = r.limbs; below = r.below }

  pub triple-IsReducedLimbs :
      {a : List ℕ} → IsReducedLimbs f.modulus a → IsReducedLimbs f.modulus (triple f a)
  unfolding triple
  triple-IsReducedLimbs p = add-IsReducedLimbs (add-IsReducedLimbs p p) p

  cross-IsReducedLimbs :
      {a1 b1 a2 b2 aa bb : List ℕ}
      → IsReducedLimbs f.modulus a1
      → IsReducedLimbs f.modulus b1
      → IsReducedLimbs f.modulus a2
      → IsReducedLimbs f.modulus b2
      → IsReducedLimbs f.modulus aa
      → IsReducedLimbs f.modulus bb
      → IsReducedLimbs f.modulus (cross f a1 b1 a2 b2 aa bb)
  unfolding cross
  cross-IsReducedLimbs a1 b1 a2 b2 aa bb =
      sub-IsReducedLimbs (mul-IsReducedLimbs (add-IsReducedLimbs a1 b1) (add-IsReducedLimbs a2 b2))
        (add-IsReducedLimbs aa bb)

  -- Over a field that keeps its promises, the sum of two points with coordinates below the prime has
  -- coordinates below the prime, and so has the identity.
  pub add_points-IsPoint :
      (p q : Point) (b3 : List ℕ)
      → IsPoint f p
      → IsPoint f q
      → IsReducedLimbs f.modulus b3
      → IsPoint f (add_points f p q b3) × IsPoint f (identity f)
  unfolding add_points identity
  add_points-IsPoint p q b3 hp hq hb =
      let xx = mul-IsReducedLimbs hp.x hq.x in
      let yy = mul-IsReducedLimbs hp.y hq.y in
      let zz = mul-IsReducedLimbs hp.z hq.z in
      let xy = cross-IsReducedLimbs hp.x hp.y hq.x hq.y xx yy in
      let xz = cross-IsReducedLimbs hp.x hp.z hq.x hq.z xx zz in
      let yz = cross-IsReducedLimbs hp.y hp.z hq.y hq.z yy zz in
      let u = sub-IsReducedLimbs (mul-IsReducedLimbs hb zz) (triple-IsReducedLimbs xz) in
      let zz3 = triple-IsReducedLimbs zz in
      let w =
        sub-IsReducedLimbs (mul-IsReducedLimbs hb xz)
          (add-IsReducedLimbs (triple-IsReducedLimbs xx) (triple-IsReducedLimbs zz3)) in
      let t = sub-IsReducedLimbs (triple-IsReducedLimbs xx) zz3 in
      let low = sub-IsReducedLimbs yy u in
      let high = add-IsReducedLimbs yy u in
      let zeros : IsReducedLimbs f.modulus (replicate 8 0) = record {
        size = sym good.count;
        limbs = IsLimbs-replicate 8;
        below = omega (arith, value-replicate 8, good.one.reduced.below);
      } in
      (
        record {
          x = sub-IsReducedLimbs (mul-IsReducedLimbs xy low) (mul-IsReducedLimbs yz w);
          y = add-IsReducedLimbs (mul-IsReducedLimbs low high) (mul-IsReducedLimbs t w);
          z = add-IsReducedLimbs (mul-IsReducedLimbs yz high) (mul-IsReducedLimbs xy t);
        },
        record { x = zeros; y = good.one.reduced; z = zeros },
      )
