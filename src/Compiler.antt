-- ===== src/Compiler.antt =====
-- compiler/src: the stages of the compiler.
mod Examples
pub mod Llvm
pub mod Ir
pub mod Verify
pub mod Lower
pub mod Select
pub mod Panics
pub mod Emit
pub mod Constants
pub mod Materialize
pub mod Image
pub mod Entry
pub mod Stages
