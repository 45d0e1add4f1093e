-- ===== src/Codegen/Correct.antt =====
-- The code of an expression, run by the VM, against the interpreter.
pub mod Steps
pub mod Calls
pub mod Exprs
pub mod Locals
pub mod Stmts
use tracescript.Prelude.{◌≡◌}
