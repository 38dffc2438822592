-- ===== src/AddressSpace.antt =====
-- session/address_space.rs and session/address_space/kernel_mapping.rs: the mappings of an address
-- space.
mod KernelMapping
mod Parts
mod MemoryMap
mod View
mod Clear
mod First
mod Insert
mod Space
mod Piece
mod Stage
mod Unmapper
mod Unmap
mod Gap
mod Adjacent
mod Coalesce
mod Joined
mod Zipper
mod Chain
mod Run
mod Coalesced
mod Around
mod DontFork
mod Map
mod Mapped
mod Protect
mod Overlap
mod Repainted
mod Protected
mod Examples
