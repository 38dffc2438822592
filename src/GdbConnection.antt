-- ===== src/GdbConnection.antt =====
-- src/gdb_connection.rs: the packets of the gdb remote protocol on the socket.
mod ByteSearch
mod State
mod Write
mod Read
pub mod Escape
pub mod Frame
pub mod Split
pub mod Xfer
pub mod Flush
mod Examples
pub use ByteSearch.{Memchr}
unfoldable pub use State.*
unfoldable pub use Write.*
unfoldable pub use Read.*
