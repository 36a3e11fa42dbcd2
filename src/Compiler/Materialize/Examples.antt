-- ===== src/Compiler/Materialize/Examples.antt =====
-- compiler/src/lower/constants.rs on small modules: a table that holds the address of a global, and one that is
-- the initializer of the global whose address it holds.
use llvm_metal.Base.{
  ℕ, zero, suc, ◌+◌, ◌<◌, ◌≡◌, refl, true, false, none, some, List, [], ◌∷◌, map, Memᴰ, arith, any,
}
use llvm_metal.Compiler.Llvm.{Llvm}
use llvm_metal.Compiler.Ir.{operands, is_pointer}
use llvm_metal.Compiler.Constants.{refers_within}
use llvm_metal.Compiler.Examples.{Thing, Shape, sample}
use llvm_metal.Compiler.Materialize.{Made, refers, offset_at, without_addresses, materialize}
use llvm_metal.Compiler.Materialize.Meaning.{Meaning, eval, IsAcyclic, IsMeaning}
use llvm_metal.Compiler.Materialize.Rebuilt.{Cleared}
use llvm_metal.Compiler.Materialize.Restored.{Sound, Inside}
use llvm_metal.Compiler.Materialize.Built.{materialize_lem}
use llvm_metal.Compiler.Materialize.Cyclic.{without_addresses-cyclic}

-- The table holds the address of a global whose initializer is plain, and is the operand of the call.
abbrev pub linked : Llvm
linked = record sample {
  num_operands = λ v. elim v [ Thing.call ↦ 1 | Thing.table_data ↦ 2 | Thing.table ↦ 1 | _ ↦ 0 ];
  get_operand = λ v i. elim v [
    | Thing.call ↦ Thing.table_data
    | Thing.table_data ↦ elim i [ zero ↦ Thing.table | suc _ ↦ Thing.slot ]
    | _ ↦ Thing.slot
  ];
  get_initializer = λ g. elim g [ Thing.table ↦ some Thing.slot | _ ↦ none ];
  nesting = λ v. elim v [ Thing.table_data ↦ 2 | Thing.table ↦ 1 | _ ↦ 0 ];
}

pub data Tree : Type 0 where
  leaf : ℕ → Tree
  end : Tree
  part : Tree → Tree → Tree

abbrev pub gathered : List Tree → Tree
gathered [] = end
gathered (d ∷ ds) = part d (gathered ds)

abbrev pub scattered : Tree → List Tree
scattered (leaf n) = []
scattered end = []
scattered (part d ds) = d ∷ scattered ds

pub scattered-gathered : (ds : List Tree) → scattered (gathered ds) ≡ ds
scattered-gathered [] = refl
scattered-gathered (d ∷ ds) = cc (scattered-gathered ds)

abbrev pub moved : Tree → List Tree → Tree
moved (leaf a) (leaf n ∷ []) = leaf (a + n)
moved _ _ = end

-- The global of the module is at 5000; the copy is at 1000, and the global 16 bytes into it.
abbrev pub meaning : Meaning linked
meaning = record {
  Datum = Tree;
  number = leaf;
  aggregate = gathered;
  parts = scattered;
  parts-aggregate = scattered-gathered;
  null_of = λ ty. leaf 0;
  gep = λ ty b is. moved b is;
  to_integer = λ d ty. d;
  denote = λ v. elim v [
    | Thing.call ↦ leaf 1000
    | Thing.table ↦ leaf 5000
    | Thing.slot ↦ leaf 7
    | Thing.table_data ↦ part (leaf 5000) (part (leaf 7) end)
    | _ ↦ leaf 0
  ];
  in_copy = λ v. elim v [
    | Thing.call ↦ leaf 1000
    | Thing.table ↦ leaf 1016
    | Thing.slot ↦ leaf 7
    | Thing.table_data ↦ part (leaf 1016) (part (leaf 7) end)
    | _ ↦ leaf 0
  ];
}

abbrev pub placed : List (Thing × ℕ)
placed = (Thing.table, 16) ∷ []

linked-operand_nested :
    (c : Thing) (i : ℕ)
    → linked.is_a_constant c ≡ true
    → linked.is_a_function c ≡ false
    → i < linked.num_operands c
    → (linked.is_a_constant (linked.get_operand c i) ≡ true)
      × (linked.nesting (linked.get_operand c i) < linked.nesting c)
linked-operand_nested Thing.table_data zero k f h = (refl, omega arith)
linked-operand_nested Thing.table_data (suc i) k f h = (refl, omega arith)
linked-operand_nested Thing.table i k f h = (refl, omega arith)
linked-operand_nested Thing.slot i k f h = absurd (omega arith)
linked-operand_nested Thing.kernel i k f h = absurd (cc)
linked-operand_nested Thing.load_op i k f h = absurd (cc)
linked-operand_nested Thing.call i k f h = absurd (cc)

pub linked-IsAcyclic : IsAcyclic linked
linked-IsAcyclic = record { operand_nested = linked-operand_nested }

meaning-of_global :
    (c : Thing) (offset : ℕ)
    → linked.is_a_global_variable c ≡ true
    → offset_at linked.value_eq placed c ≡ some offset
    → meaning.in_copy c ≡ moved (leaf 1000) (leaf offset ∷ [])
unfolding offset_at
meaning-of_global Thing.table offset g e = let p : 16 ≡ offset = cc in rw (← p) refl
meaning-of_global Thing.table_data offset g e = absurd (cc)
meaning-of_global Thing.slot offset g e = absurd (cc)
meaning-of_global Thing.kernel offset g e = absurd (cc)
meaning-of_global Thing.load_op offset g e = absurd (cc)
meaning-of_global Thing.call offset g e = absurd (cc)

meaning-of_aggregate :
    (c : Thing)
    → refers linked c ≡ true
    → is_pointer linked (linked.type_of c) ≡ false
    → linked.is_a_constant_expr c ≡ false
    → meaning.in_copy c ≡ gathered (map meaning.in_copy (operands linked c))
unfolding refers refers_within operands is_pointer any
meaning-of_aggregate Thing.table_data h p k = refl
meaning-of_aggregate Thing.table h p k = absurd (cc)
meaning-of_aggregate Thing.slot h p k = absurd (cc)
meaning-of_aggregate Thing.kernel h p k = absurd (cc)
meaning-of_aggregate Thing.load_op h p k = absurd (cc)
meaning-of_aggregate Thing.call h p k = absurd (cc)

meaning-of_plain : (c : Thing) → refers linked c ≡ false → meaning.in_copy c ≡ meaning.denote c
unfolding refers refers_within operands any
meaning-of_plain Thing.table_data h = absurd (cc)
meaning-of_plain Thing.table h = absurd (cc)
meaning-of_plain Thing.slot h = refl
meaning-of_plain Thing.kernel h = refl
meaning-of_plain Thing.load_op h = refl
meaning-of_plain Thing.call h = refl

pub meaning-IsMeaning : IsMeaning linked meaning placed Thing.call
meaning-IsMeaning = record {
  of_plain = meaning-of_plain;
  of_global = meaning-of_global;
  of_gep = λ c k o. absurd (cc);
  of_ptr_to_int = λ c k o. absurd (cc);
  of_aggregate = meaning-of_aggregate;
}

slot-plain : refers linked Thing.slot ≡ false
unfolding refers refers_within operands any
slot-plain = refl

pub table-Sound : Sound linked placed Thing.table
unfolding refers refers_within offset_at
table-Sound = Sound.global 16 refl refl refl

table_data-Sound : Sound linked placed Thing.table_data
unfolding refers refers_within operands is_pointer any
table_data-Sound =
    Sound.aggregate refl refl refl refl
      (Inside.parts refl refl refl (λ i h.
        elim i as (λ j. Inside linked placed (linked.get_operand Thing.table_data j)) [
          | zero ↦ Inside.address refl refl table-Sound
          | suc _ ↦ Inside.without slot-plain
        ]))
      (Cleared.emptied refl tt (λ i h.
        elim i as (λ j. Cleared linked (linked.get_operand Thing.table_data j)) [
          | zero ↦ Cleared.emptied refl tt (λ j k. Cleared.whole slot-plain)
          | suc _ ↦ Cleared.whole slot-plain
        ]))

materialize_lem_example :
    (m : Made Thing Shape) × (materialize linked 3 placed Thing.call Thing.table_data ≡ some m)
    × (eval linked meaning m ≡ some (part (leaf 1016) (part (leaf 7) end)))
materialize_lem_example =
    materialize_lem linked linked-IsAcyclic meaning placed Thing.call meaning-IsMeaning 3
      Thing.table_data table_data-Sound (omega arith)

-- The table is the initializer of the global whose address it holds.
abbrev looped : Llvm
looped = record linked {
  get_operand = λ v i. elim v [
    | Thing.call ↦ Thing.table_data
    | Thing.table_data ↦ elim i [ zero ↦ Thing.table | suc _ ↦ Thing.slot ]
    | Thing.table ↦ Thing.table_data
    | _ ↦ Thing.slot
  ];
  get_initializer = λ g. elim g [ Thing.table ↦ some Thing.table_data | _ ↦ none ];
}

looped-refers : (refers looped Thing.table_data ≡ true) × (refers looped Thing.table ≡ true)
unfolding refers refers_within operands any
looped-refers = (refl, refl)

looped_into :
    Memᴰ Thing.table (operands looped Thing.table_data)
    × Memᴰ Thing.table_data (operands looped Thing.table)
unfolding operands
looped_into = (Memᴰ.head refl, Memᴰ.head refl)

without_addresses-cyclic_example :
    (without_addresses looped 100 Thing.table_data ≡ none)
    × (without_addresses looped 100 Thing.table ≡ none)
without_addresses-cyclic_example =
    without_addresses-cyclic looped Thing.table_data Thing.table looped-refers.0 looped-refers.1
      looped_into.0 looped_into.1 100
