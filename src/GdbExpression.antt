-- ===== src/GdbExpression.antt =====
-- src/gdb_expression.rs: the interpreter of gdb's agent expressions.
mod Word
mod State
mod Step
mod Evaluate
pub mod Panics
pub mod Agree
pub mod Compile
mod Examples
unfoldable pub use Word.*
unfoldable pub use State.*
unfoldable pub use Step.*
unfoldable pub use Evaluate.*
