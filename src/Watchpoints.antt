-- ===== src/Watchpoints.antt =====
-- session/address_space.rs: the watchpoints of an address space, and the debug registers that they
-- need. `none` is a panic.
pub mod Split
pub mod Registers
pub mod Covered
mod Examples
