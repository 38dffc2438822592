-- ===== src/WaitStatus.antt =====
-- src/wait_status.rs: the meaning of the status word that `waitpid` returns.
-- The word, an `i32`, is held as its bit pattern, a number below 2 ^ 32.
mod Abi
mod Decode
pub mod Encode
pub mod Classify
mod Examples
pub use Abi.{WaitAbi}
unfoldable pub use Decode.*
