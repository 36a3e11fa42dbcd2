-- ===== src/Lib.antt =====
-- llvm-metal compiles a Rust kernel crate to a Metal library and runs it on a GPU. The development
-- models the parts of it that decide something, and proves what they promise.
--
-- Compiler (compiler/src). The stages work on a module of LLVM through its C API, which is code
-- outside the repository: Compiler/Llvm.antt is the calls as a record, one field a call, and every
-- definition of the compiler takes it. Compiler/Ir.antt is ir.rs (chain, functions, globals, blocks,
-- instructions, operands, defined, callee, is_pointer), Compiler/Verify.antt is verify.rs (verify and
-- what it calls). The facts of LLVM that the proofs use are the fields of `IsModule` in
-- Compiler/Verify/Laws.antt, and Compiler/Examples.antt has a module that keeps them.
--
-- Bounds: a walk along a linked list of LLVM takes at most `list_bound` steps; `wide` and
-- `addresses_only_constants` recurse to the nesting of the type or constant and one more, which is
-- enough since parts nest less; the search of `reaches_itself` takes a round for each function and
-- one more, which is enough since no round takes a function that an earlier one took; the loop of
-- `keep_reachable` takes a round for the entry and one for each reference of a value in reach, which is
-- enough since a value adds its references once.
--
-- Compiler/Stages.antt is program of compiler/src/lib.rs over `Toolchain`, the modules of inkwell with what
-- the edits of a stage make of them. Compiler/Panics.antt and Compiler/Select.antt are rewrite_panics and
-- keep_reachable of select.rs; what they do to the module is a list of calls of LLVM in order, and
-- rewrite_panics hands on what it has replaced and erased.
--
-- Compiler/Lower.antt and its children are slots of lower/mod.rs and lower/context.rs: types, launch and
-- operation, Lower/Extend.antt extend and Lower/Rewrite.antt rewrite_calls. The functions that LLVM adds are
-- a parameter, the instructions that are built are data, the result of a replaced call goes by the call's
-- name, and a parameter of an old function by that of the new one. Of lower/constants.rs,
-- Compiler/Constants.antt is refers, addresses and offset_of, Compiler/Materialize.antt materialize, insert
-- and without_addresses, with address_constants of lower/mod.rs, and Compiler/Image.antt image. What is
-- built is data (`Made`); `eval` in Materialize/Meaning.antt says what it computes from what values are to
-- LLVM (`denote`), and `IsMeaning` what they are to become where the globals are in the copy (`in_copy`).
-- `IsAcyclic` there asks that no constant leads back to itself. Compiler/Entry.antt is entry of lower/mod.rs, and Entry/Steps.antt
-- what its instructions do to the copy of the constants. Compiler/Emit.antt is describe and
-- clear_position_independence of emit.rs, with the parameters that entry gives the entry.
--
-- The recursions over constants go to the nesting of the constant and one more; those of materialize and
-- without_addresses take fuel, and more than the nesting is enough, since operands nest less.
--
-- Metallib (metallib/src/lib.rs). Metallib.antt is tag and package on lists of bytes; SHA-256 is a
-- parameter. A `usize` is 64 bits.
--
-- Kernel (kernel/src). Kernel/Host.antt is host.rs: the buffers and the thread index as a state, a
-- panic as `none`. Kernel/Handles.antt is the handles In and Out and the byte loops of lib.rs over
-- the host's operations. Kernel/Plain.antt is the trait Plain as a record of the two conversions.
-- `len` divides by the size of the element, and panics at 0. Kernel/Values.antt is bytes and values of
-- host.rs, and Kernel/Launches.antt says what a launch does whose threads each write one element,
-- and Kernel/Bound.antt what they read of buffers made of values.
--
-- Runtime (runtime/src/lib.rs). Runtime.antt is buffer, dispatch, launch and run of the pipeline, with
-- the calls of Metal as a record over a state of the device; `IsMemory` of Runtime/Bound.antt is what
-- the proofs use of Metal's memory.
--
-- Modular (examples/rsa/kernel/src/modular.rs). Modular.antt is reduce, modadd, modsub and montmul on
-- lists of 32-bit limbs; Modular/Value.antt says which number a list stands for, and Modular/Scan.antt
-- how the bits of limbs are read.
--
-- Rsa. Rsa.antt is modexp_half and sign_one of examples/rsa/kernel/src/lib.rs, Rsa/Entry.antt its kernel
-- sign and on_host of examples/rsa/src/lib.rs. Rsa/Key.antt is half and sign_key of
-- examples/rsa/src/key.rs, which derive the constants of a key, and Rsa/Public.antt public_key and
-- verifies. Texts are taken as the limbs that `limbs` reads off them. `IsHalfKey` and `IsSignKey` say
-- what a key must hold: R, R ^ 2 and R ^ 3 modulo the prime, that R has an inverse, and the inverse of
-- one prime modulo the other; `IsKeyText` is what is asked of the texts. Fermat's little theorem is
-- assumed of the primes and numbers at hand.
--
-- P256. P256.antt is examples/p256/kernel/src/field.rs, whose ladder is the one of Rsa, P256/Point.antt
-- point.rs, P256/Curve.antt finish of lib.rs with the constants, the key and the curve of
-- examples/p256/src/curve.rs, P256/Curve/Table.antt its table, P256/Entry.antt the kernel sign with on_host of
-- examples/p256/src/lib.rs, and P256/Random.antt its requests, whose generator is the one of
-- Rsa/Random.antt (examples/rsa/src/lib.rs). `IsField` and `IsKey` say what the constants must be.
--
-- Shallenge. Shallenge.antt and Shallenge/Compress.antt (examples/shallenge/kernel/src/lib.rs and
-- compress.rs) are the search of one thread: SHA-256 of one block (compress), the characters of the nonce
-- (character) and the comparison and selection by masks (search). Shallenge/Sha.antt is the host's own
-- SHA-256 (examples/shallenge/src/sha256.rs), Shallenge/Filled.antt the loop that writes the nonce into the
-- block, Shallenge/Entry.antt the kernel shallenge with request,
-- nonce and on_host of examples/shallenge/src/lib.rs. Arrays are lists with the lengths of the source.
--
-- How rustc lays out the types that the kernels share with the host is a parameter of the entries.
--
-- Base has the Boolean tests, list operations, bytes, powers and bit masks that the parts share.
--
-- Not modelled: the files and processes around the stages (compiler/src/cargo.rs, compile of
-- compiler/src/lib.rs, library of emit.rs, load of the runtime), the command lines of the examples and their
-- launches on the GPU, and lower as a whole, with its deletions at the end and the order of its rewrites. examples/p256/kernel/src/modular.rs has the text of the file
-- that Modular models.
pub mod Base
pub mod Compiler
pub mod Metallib
pub mod Kernel
pub mod Modular
pub mod Rsa
pub mod P256
pub mod Shallenge
pub mod Runtime
