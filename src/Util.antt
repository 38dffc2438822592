-- ===== src/Util.antt =====
-- util.rs: the search for a string of bytes in another, and the rounding to pages. A page has 4096
-- bytes, as sysconf gives on x86, the one architecture of the program.
mod Pages
pub mod Search
unfoldable pub use Pages.{page_size, floor_page_size, ceil_page_size}
pub use Pages.{floor_page_size_lem, ceil_page_size_lem, IsPage}
