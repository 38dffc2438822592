-- ===== src/FdTable.antt =====
-- fd_table.rs: the monitored file descriptors of a task, and which of them the preloaded library leaves
-- to the tracer.
mod Table
mod Lookup
mod Counted
mod Disabled
mod Examples
