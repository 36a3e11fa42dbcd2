-- ===== src/Compiler/Lower/Rewrite/Passed.antt =====
-- What a call of a replaced function becomes in `rewrite_calls` of compiler/src/lower/context.rs.
use llvm_metal.Base.{List}
use llvm_metal.Compiler.Llvm.{Llvm}
