-- ===== src/Modular/Examples.antt =====
-- examples/rsa/kernel/src/modular.rs on two-limb numbers.
use llvm_metal.Base.{ℕ, ◌+◌, refl, List, [], ◌∷◌, arith}
use llvm_metal.Modular.{modadd, modsub, montmul}
use llvm_metal.Modular.Value.{value, IsLimbs}
use llvm_metal.Modular.Reduce.{IsReduced}
use llvm_metal.Modular.Add.{modadd_lem, IsSubtracted, modsub_lem}
use llvm_metal.Modular.Montgomery.{IsMontgomery, montmul_lem}

abbrev modulus : List ℕ
modulus = 0xffffffff ∷ 0xfffffffe ∷ []

abbrev left : List ℕ
left = 5 ∷ 0xfffffff0 ∷ []

abbrev right : List ℕ
right = 7 ∷ 0xfffffff1 ∷ []

left-IsLimbs : IsLimbs left
left-IsLimbs = (omega arith, (omega arith, tt))

right-IsLimbs : IsLimbs right
right-IsLimbs = (omega arith, (omega arith, tt))

modulus-IsLimbs : IsLimbs modulus
modulus-IsLimbs = (omega arith, (omega arith, tt))

modadd_lem_example : IsReduced (value left + value right) modulus (modadd left right modulus)
modadd_lem_example =
    modadd_lem left right modulus left-IsLimbs right-IsLimbs modulus-IsLimbs refl refl (omega arith)
      (omega arith)

modsub_lem_example : IsSubtracted left right modulus (modsub left right modulus)
modsub_lem_example =
    modsub_lem left right modulus left-IsLimbs right-IsLimbs modulus-IsLimbs refl refl (omega arith)
      (omega arith)

montmul_lem_example : IsMontgomery left right modulus (montmul left right modulus 1)
montmul_lem_example =
    montmul_lem left right modulus 1 left-IsLimbs right-IsLimbs modulus-IsLimbs refl refl
      (omega arith) refl (omega arith)
