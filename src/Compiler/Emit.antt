-- ===== src/Compiler/Emit.antt =====
-- compiler/src/emit.rs: `describe`, the metadata that tells Metal how to bind the entry's arguments, and the
-- parameters of the entry that `entry` of compiler/src/lower/mod.rs makes. Adding metadata to the module is a
-- call of LLVM, so the nodes are the result.
pub mod Entry
mod Examples
use Prim.Native.String.{String}
use package.text.Mathlib.Text.{◌==◌ as str_eq}
use llvm_metal.Base.{
  ℕ, zero, suc, ◌+◌, Bool, true, false, ◌&&◌, ◌||◌, Option, none, some, List, [], ◌∷◌, map, length,
  ◌==◌, if◌then◌else◌,
}
use llvm_metal.Compiler.Lower.{Parameter, types}

-- The type of a parameter of the entry, as `describe` tells them apart.
pub data EntryType : Type 0 where
  pointer integer : ℕ → EntryType
  other_type : EntryType

-- An operand of a metadata node; `buffer_name` is the text `buffer` with an index.
pub data Item : Type 0 where
  number : ℕ → Item
  text : String → Item
  buffer_name : ℕ → Item

pub data Described : Type 0 where
  described : List (List Item) → Described
  no_function : Described
  refused : ℕ → Described

pub buffer_items : ℕ → List Item
buffer_items index =
    number index
    ∷ text "air.buffer"
    ∷ text "air.location_index"
    ∷ number index
    ∷ number 1
    ∷ text "air.read_write"
    ∷ text "air.address_space"
    ∷ number 1
    ∷ text "air.arg_type_size"
    ∷ number 1
    ∷ text "air.arg_type_align_size"
    ∷ number 1
    ∷ text "air.arg_type_name"
    ∷ text "uchar"
    ∷ text "air.arg_name"
    ∷ buffer_name index
    ∷ []

pub thread_items : ℕ → List Item
thread_items index =
    number index
    ∷ text "air.thread_position_in_grid"
    ∷ text "air.arg_type_name"
    ∷ text "uint"
    ∷ text "air.arg_name"
    ∷ text "thread"
    ∷ []

-- The node of one parameter; none is an error.
pub argument : ℕ → ℕ → EntryType → Option (List Item)
argument index total (pointer space) = if space == 1 then some (buffer_items index) else none
argument index total (integer width) =
    if (index + 1 == total) && (width == 32) then some (thread_items index) else none
argument index total other_type = none

-- The loop over the parameters, from an index on.
pub arguments : ℕ → ℕ → List EntryType → Described
arguments index total [] = described []
arguments index total (ty ∷ rest) =
    let others = arguments (suc index) total rest in
    elim (argument index total ty) [
      | none ↦ refused index
      | some node ↦ elim others [
        | described nodes ↦ described (node ∷ nodes)
        | no_function ↦ no_function
        | refused at ↦ refused at
      ]
    ]

-- `describe`, of the parameters of the function of that name if there is one
pub describe : Option (List EntryType) → Described
describe none = no_function
describe (some parameters) = arguments 0 (length parameters) parameters

-- The nodes of `air.version` and `air.language_version`
pub versions : List Item × List Item
versions = (number 2 ∷ number 4 ∷ number 0 ∷ [], text "Metal" ∷ number 3 ∷ number 0 ∷ number 0 ∷ [])

-- The types of `types` as `describe` sees them.
pub entry_type : Parameter → EntryType
entry_type Parameter.device_pointer = pointer 1
entry_type Parameter.word32 = integer 32
entry_type Parameter.thread_pointer = pointer 0

-- `Vec::pop`, without the value
pub popped : {A : Type 0} → List A → List A
popped [] = []
popped (x ∷ []) = []
popped (x ∷ (y ∷ rest)) = x ∷ popped (y ∷ rest)

-- The parameters of `entry`
pub entry_parameters : ℕ → List EntryType
entry_parameters buffers = map entry_type (popped (types buffers))

-- `clear_position_independence`, on the module's flags: the name and the value of each.
pub clear_position_independence : List (String × ℕ) → List (String × ℕ)
clear_position_independence [] = []
clear_position_independence ((name, value) ∷ flags) =
    let rest = clear_position_independence flags in
    if str_eq name "PIC Level" || str_eq name "PIE Level"
    then (name, 0) ∷ rest
    else (name, value) ∷ rest
